-- ===== src/W5100/Receiving/Same.antt =====
-- apps/w5100.c: accesses that leave the receiving side of socket 1 as it is.
use ip.Common.{ℕ, ◌^◌, ◌<◌, ◌≡◌, refl, sym, ◌∙◌, Bool, true, false, leb, ltb, ◌&&◌}
use ip.Common.{arith}
use ip.W5100.{Machine, Driver, sock_reg, set_addr, get_byte, get_word}
use ip.W5100.Bus.{IsChip}
use ip.W5100.Commit.{KeepsPointers, is_pointer, pointer, get_word-word}
use ip.W5100.{w5100_connected, w5100_data_request}
use ip.W5100.Interface.{granted}
use ip.W5100.Accesses.{IsKept, set_addr-Rel, get_byte-Rel, get_word-Rel, connected-Rel, request-Rel}
use ip.W5100.Request.{IsDirection}
use ip.W5100.Receiving.{Held, Kept, Kept-trans, IsReceivingCard}

-- The RX Read Pointer Register of socket 1.
abbrev pub is_read_pointer : ℕ → Bool
is_read_pointer a = leb 0x0528 a && ltb a 0x052A

widen : (a : ℕ) → is_read_pointer a ≡ true → is_pointer a ≡ true
widen a h = ground arith

module _ (M : Machine) (d : Driver) (C : IsChip M d) (K : KeepsPointers M d C)
    (R : IsReceivingCard M d C K) where
  open C use {address, memory}

  abbrev pub KeptBy : M.State → M.State → Type 0
  KeptBy = Kept M d C R.stream R.base

  pub Kept-IsKept : IsKept M d KeptBy
  Kept-IsKept = record {
    rel_refl = λ s. record { stream-is = refl; base-is = refl; held = λ n v. v };
    rel_trans = Kept-trans M d C R.stream R.base;
    rel-store_hi = R.store_hi-Kept;
    rel-store_lo = R.store_lo-Kept;
    rel-load = R.load-Kept;
  }

  -- Nothing is acknowledged or lost, and the read pointer is as it was.
  pub record Same (s s' : M.State) : Type 0 where
    pub kept : KeptBy s s'
    pub pointers : (a : ℕ) → is_read_pointer a ≡ true → memory s' a ≡ memory s a

  pub Same-refl : (s : M.State) → Same s s
  Same-refl s = record {
    kept = record { stream-is = refl; base-is = refl; held = λ n v. v };
    pointers = λ a h. refl;
  }

  pub Same-trans : (s t u : M.State) → Same s t → Same t u → Same s u
  Same-trans s t u h k = record {
    kept = Kept-trans M d C R.stream R.base s t u h.kept k.kept;
    pointers = λ a p. k.pointers a p ∙ h.pointers a p;
  }

  pub abort_key-Same : (s : M.State) → Same s (M.abort_key s).1
  abort_key-Same s = record {
    kept = R.abort_key-Kept s;
    pointers = λ a h. R.pointer-abort_key s a (widen a h);
  }

  pub load-Same : (s : M.State) → Same s (M.load d.w5100_data s).1
  load-Same s = record { kept = R.load-Kept s; pointers = λ a h. K.pointer-load s a (widen a h) }

  pub Same-IsKept : IsKept M d Same
  Same-IsKept = record {
    rel_refl = Same-refl;
    rel_trans = Same-trans;
    rel-store_hi = λ v s. record {
      kept = R.store_hi-Kept v s;
      pointers = λ a h. K.pointer-store_hi v s a (widen a h);
    };
    rel-store_lo = λ v s. record {
      kept = R.store_lo-Kept v s;
      pointers = λ a h. K.pointer-store_lo v s a (widen a h);
    };
    rel-load = load-Same;
  }

  pub set_addr-Same : (addr : ℕ) (s : M.State) → Same s (set_addr M d addr s)
  set_addr-Same = set_addr-Rel M d Same Same-IsKept

  pub get_byte-Same : (addr : ℕ) (s : M.State) → Same s (get_byte M d addr s).1
  get_byte-Same = get_byte-Rel M d Same Same-IsKept

  pub get_word-Same : (addr : ℕ) (s : M.State) → Same s (get_word M d addr s).1
  get_word-Same = get_word-Rel M d Same Same-IsKept

  pub connected-Same : (s : M.State) → Same s (w5100_connected M d s).1
  connected-Same = connected-Rel M d Same Same-IsKept

  pub request-Same :
      (fuel : ℕ) (do_send : Bool) (s : M.State)
      → Same s (granted s (w5100_data_request M d fuel do_send s)).1
  request-Same = request-Rel M d Same Same-IsKept

  -- Nothing is to be acknowledged: the pointer register holds bytes, and stands where the last RECV
  -- command has left it.
  pub record Rests (s : M.State) : Type 0 where
    pub at_base : pointer M d C K false s ≡ R.base s
    pub byte_hi : memory s 0x0528 < 2 ^ 8
    pub byte_lo : memory s 0x0529 < 2 ^ 8

  pub pointer-Same :
      (s s' : M.State) → Same s s' → pointer M d C K false s' ≡ pointer M d C K false s
  pointer-Same s s' h = omega (arith, h.pointers 0x0528 refl, h.pointers 0x0529 refl)

  pub Rests-Same : (s s' : M.State) → Same s s' → Rests s → Rests s'
  Rests-Same s s' h r = record {
    at_base = pointer-Same s s' h ∙ r.at_base ∙ sym h.kept.base-is;
    byte_hi = omega (arith, h.pointers 0x0528 refl, r.byte_hi);
    byte_lo = omega (arith, h.pointers 0x0529 refl, r.byte_lo);
  }

  -- What the driver reads from the pointer register.
  pub get_word-pointer : (s : M.State) → Rests s → (get_word M d (sock_reg 0x28) s).0 ≡ R.base s
  get_word-pointer s r =
      get_word-word M d C K 0x0528 s (omega arith) refl refl r.byte_lo ∙ r.at_base

  -- The receiving direction of the socket.
  pub receiving-IsDirection : IsDirection M d false Same Rests (Held M d C R.stream R.base) R.base
  receiving-IsDirection = record {
    kept = Same-IsKept;
    Idle-Rel = Rests-Same;
    Found-Rel = λ n s s' h. h.kept.held n;
    Found-le = λ n k s h w. record {
      fits = omega (arith, w.fits);
      bytes = λ j lt. w.bytes j (omega arith);
    };
    base-Rel = λ s s' h. h.kept.base-is;
    read_base = get_word-pointer;
    settled-Found = λ n s0 s1 s2 some_data first again r.
        R.settled-Held n s0 s1 s2 some_data first again r.at_base;
  }
