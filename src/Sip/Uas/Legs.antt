-- ===== src/Sip/Uas/Legs.antt =====
-- Lists of legs, and the segment of the leg at an index.
use xk6_sip_media.Prelude.{
  ◌<◌, length, ℕ, zero, suc, ◌+◌, ◌≡◌, true, none, some, List, [], ◌∷◌, ◌++◌, arith,
}
use xk6_sip_media.Prelude.{get_elem?, set}
use mathlib.Core.Path.{subst}
use xk6_sip_media.Sip.Uas.{RegisteredUas, Leg}
use xk6_sip_media.Sip.Uas.{put, advance_leg, advance, signal}

abbrev pub sum_by : (Leg → ℕ) → List Leg → ℕ
sum_by w [] = 0
sum_by w (leg ∷ legs) = w leg + sum_by w legs

pub sum_by-set :
    (w : Leg → ℕ) (legs : List Leg) (i : ℕ) (old new : Leg)
    → get_elem? legs i ≡ some old
    → sum_by w (set legs i new) + w old ≡ sum_by w legs + w new
sum_by-set w [] i old new e = cc
sum_by-set w (leg ∷ legs) zero old new e = let q : leg ≡ old = cc in ground (arith, q)
sum_by-set w (leg ∷ legs) (suc i) old new e = omega (arith, sum_by-set w legs i old new e)

pub sum_by-append_one :
    (w : Leg → ℕ) (legs : List Leg) (new : Leg)
    → sum_by w (legs ++ (new ∷ [])) ≡ sum_by w legs + w new
sum_by-append_one w [] new = omega arith
sum_by-append_one w (leg ∷ legs) new = omega (arith, sum_by-append_one w legs new)

abbrev pub Each : (Leg → Type 0) → List Leg → Type 0
Each P [] = Unit
Each P (leg ∷ legs) = P leg × Each P legs

pub Each-get_elem? :
    (P : Leg → Type 0) (legs : List Leg) (i : ℕ) (leg : Leg)
    → Each P legs
    → get_elem? legs i ≡ some leg
    → P leg
Each-get_elem? P [] i leg h e = cc
Each-get_elem? P (x ∷ legs) zero leg h e = let q : x ≡ leg = cc in subst P q h.0
Each-get_elem? P (x ∷ legs) (suc i) leg h e = Each-get_elem? P legs i leg h.1 e

pub Each-set :
    (P : Leg → Type 0) (legs : List Leg) (i : ℕ) (leg : Leg)
    → Each P legs
    → P leg
    → Each P (set legs i leg)
Each-set P [] i leg h p = h
Each-set P (x ∷ legs) zero leg h p = (p, h.1)
Each-set P (x ∷ legs) (suc i) leg h p = (h.0, Each-set P legs i leg h.1 p)

pub Each-append_one :
    (P : Leg → Type 0) (legs : List Leg) (leg : Leg)
    → Each P legs
    → P leg
    → Each P (legs ++ (leg ∷ []))
Each-append_one P [] leg h p = (p, h)
Each-append_one P (x ∷ legs) leg h p = (h.0, Each-append_one P legs leg h.1 p)

pub advance_at :
    (i : ℕ) (leg : Leg) (u : RegisteredUas)
    → get_elem? u.legs i ≡ some leg
    → advance i u ≡ advance_leg leg.stage i leg u
unfolding advance
advance_at i leg u e = ground (arith, e)

pub advance_out : (i : ℕ) (u : RegisteredUas) → get_elem? u.legs i ≡ none → advance i u ≡ none
unfolding advance
advance_out i u e = ground (arith, e)

pub signal_at :
    (i : ℕ) (leg : Leg) (u : RegisteredUas)
    → get_elem? u.legs i ≡ some leg
    → signal i u ≡ put i (record leg { signalled = true }) u
unfolding signal
signal_at i leg u e = ground (arith, e)

pub signal_out : (i : ℕ) (u : RegisteredUas) → get_elem? u.legs i ≡ none → signal i u ≡ u
unfolding signal
signal_out i u e = ground (arith, e)

pub get_elem?-lt :
    (legs : List Leg) (i : ℕ) (leg : Leg) → get_elem? legs i ≡ some leg → i < length legs
get_elem?-lt [] i leg e = cc
get_elem?-lt (x ∷ legs) zero leg e = omega arith
get_elem?-lt (x ∷ legs) (suc i) leg e = omega (arith, get_elem?-lt legs i leg e)
