-- ===== src/Wget/Name/Tests.antt =====
-- Runs of the proposed name, and the theorems at concrete data.
use ip.Common.{◌≡◌, refl}
use ip.Common.{some, [], arith}
use ip.Common.Chars.{codes, to_upper, is_alnum}
use ip.Wget.Name.{propose_name, trim}
use ip.Wget.Name.Laws.{IsFileName, propose_name-IsFileName, trim_extension}

plain_name : propose_name 0 (codes "http://a.b/c/1dir/2my%20game-v1.dsk") ≡ codes "MY.GAMEV1.DSK"
unfolding propose_name is_alnum to_upper
plain_name = refl

long_name : propose_name 0 (codes "http://a.b/averylongfilename.dsk") ≡ codes "AVERYLONGFI.DSK"
unfolding propose_name is_alnum to_upper
long_name = refl

no_name : propose_name 0 (codes "http://host") ≡ []
unfolding propose_name is_alnum to_upper
no_name = refl

propose_name-IsFileName_example : IsFileName (propose_name 0 (codes "http://a.b/1long%20name.dsk"))
propose_name-IsFileName_example = propose_name-IsFileName 0 (codes "http://a.b/1long%20name.dsk")

trim_extension_example : trim (codes "AVERYLONGFILENAME.DSK") (some 17) ≡ codes "AVERYLONGFI.DSK"
trim_extension_example =
    trim_extension (codes "AVERYLONGFILENAME.DSK") 17 (omega arith) (omega arith)
