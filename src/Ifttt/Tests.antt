-- ===== src/Ifttt/Tests.antt =====
-- Runs of apps/ifttt.c, and the theorems at concrete data.
use ip.Common.{ℕ, ◌%◌, ◌≡◌, refl, none, some, List, [], ◌∷◌, map, arith, length, ◌≤◌}
use ip.Common.Chars.{codes, is_alnum, is_digit}
use ip.Common.Int.{pos}
use ip.Ifttt.{encode, compose, ifttt_trigger, Download, status_of}
use ip.Ifttt.Encoding.{decode, IsToAscii, decode-encode}
use ip.Ifttt.Url.{query_values, query_values-compose}
use ip.Ifttt.Trigger.{ifttt_trigger-within, ifttt_trigger-status}

abbrev ascii : ℕ → ℕ
ascii c = c % 256

ascii-IsToAscii : IsToAscii ascii
ascii-IsToAscii = record { same = λ c h. omega arith; bounded = λ c. omega arith }

abbrev tweet : List ℕ
tweet = codes "a b&c=50%"

tweet_is_encoded : encode ascii tweet ≡ codes "a+b%26c%3D50%25"
unfolding encode is_alnum
tweet_is_encoded = refl

abbrev answering : Download
answering url = ((40, codes "HTTP/1.1 200 OK"), none)

-- A response that is cut off.
abbrev failing : Download
failing url = ((3, codes "HTT"), some 0x87)

decode-encode_example : decode (encode ascii tweet) ≡ tweet
decode-encode_example = decode-encode ascii ascii-IsToAscii tweet

query_values-compose_example :
    query_values (map ascii (compose ascii (codes "k1") (codes "tweet") (some tweet) none none))
    ≡ tweet ∷ [] ∷ [] ∷ []
query_values-compose_example =
    query_values-compose ascii ascii-IsToAscii (codes "k1") (codes "tweet") (some tweet) none none
      (omega arith) (omega arith)

ifttt_trigger-within_example :
    let url = map ascii (compose ascii (codes "k1") (codes "tweet") (some tweet) none none) in
    (length url ≤ 1400)
    × (ifttt_trigger ascii failing (codes "k1") (codes "tweet") (some tweet) none none ≡ record {
      result = status_of (failing url).0;
      error = (failing url).1;
      requested = some url;
    })
ifttt_trigger-within_example =
    ifttt_trigger-within ascii failing (codes "k1") (codes "tweet") (some tweet) none none
      (omega arith)

ifttt_trigger-status_example :
    (ifttt_trigger ascii answering (codes "k1") (codes "tweet") (some tweet) none none).result
    ≡ pos 200
unfolding is_digit
ifttt_trigger-status_example =
    ifttt_trigger-status ascii answering (codes "k1") (codes "tweet") (some tweet) none none 40 2 0
      0 (codes "HTTP/1.1 ") (codes " OK") (omega arith) refl refl (omega arith) (omega arith)
      (omega arith) refl
