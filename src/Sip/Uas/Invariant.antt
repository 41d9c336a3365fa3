-- ===== src/Sip/Uas/Invariant.antt =====
-- The cap and the counts, and what a segment has to show to keep them.
use xk6_sip_media.Prelude.{
  ℕ, ◌+◌, ◌≤◌, ◌≡◌, refl, sym, ◌⊎◌, Bool, true, false, ◌&&◌, some, List, [], ◌∷◌, arith,
}
use xk6_sip_media.Prelude.{ltb, ◌==◌, if◌then◌else◌, get_elem?, set}
use mathlib.Core.Path.{subst}
use xk6_sip_media.Sip.Uas.{
  RegisteredUas, Leg, Stage, arrived, admitted, offering, up, stopping, ending, leaving, gone,
}
use xk6_sip_media.Sip.Uas.Legs.{sum_by, sum_by-set, Each, Each-set}

-- Between the cap and the deferred decrement.
unfoldable pub counted : Stage → ℕ
counted arrived = 0
counted admitted = 1
counted offering = 1
counted up = 1
counted stopping = 1
counted ending = 1
counted leaving = 1
counted gone = 0

-- Whether the result of an answered call is in: the 200 was sent, and the wait is over.
unfoldable pub settled : Stage → Bool
settled arrived = false
settled admitted = false
settled offering = false
settled up = false
settled stopping = false
settled ending = true
settled leaving = true
settled gone = true

unfoldable pub answered_ok : List ℕ → Bool
answered_ok [] = false
answered_ok (code ∷ older) = code == 200

unfoldable pub reported : Leg → ℕ
reported leg =
    if settled leg.stage && leg.invite.respond_ok && answered_ok leg.responses then 1 else 0

abbrev pub in_progress : List Leg → ℕ
in_progress = sum_by (λ leg. counted leg.stage)

-- The responses of a handler that returns early, and of one that has sent the 200.
abbrev pub Refused : List ℕ → Type 0
Refused codes =
    (codes ≡ (415 ∷ []))
    ⊎ (codes ≡ (400 ∷ []))
    ⊎ (codes ≡ (500 ∷ 100 ∷ []))
    ⊎ (codes ≡ (400 ∷ 100 ∷ []))

abbrev pub Accepted : List ℕ → Type 0
Accepted codes = codes ≡ (200 ∷ 100 ∷ [])

-- What a leg has sent at each stage: at most one final response, and the 200 before the wait.
unfoldable pub Sent : Stage → Bool → List ℕ → Type 0
Sent arrived ok codes = codes ≡ []
Sent admitted ok codes = codes ≡ []
Sent offering ok codes = codes ≡ (100 ∷ [])
Sent up ok codes = (ok ≡ true) × Accepted codes
Sent stopping ok codes = (ok ≡ true) × Accepted codes
Sent ending ok codes = Accepted codes
Sent leaving ok codes = Refused codes ⊎ Accepted codes
Sent gone ok codes = (codes ≡ (486 ∷ [])) ⊎ Refused codes ⊎ Accepted codes

abbrev pub Responds : Leg → Type 0
Responds leg = Sent leg.stage leg.invite.respond_ok leg.responses

pub record IsCapped (u : RegisteredUas) : Type 0 where
  pub active_is : u.active ≡ (if ltb 0 u.cfg.max_concurrent then in_progress u.legs else 0)
  pub below_max : u.active ≤ u.cfg.max_concurrent
  pub results_are : u.results ≡ sum_by reported u.legs
  pub respond_so : Each Responds u.legs

-- What a segment has to show when it replaces leg `i`.
pub replace-IsCapped :
    (i : ℕ) (old new : Leg) (u u' : RegisteredUas)
    → get_elem? u.legs i ≡ some old
    → IsCapped u
    → u'.cfg ≡ u.cfg
    → u'.legs ≡ set u.legs i new
    → Responds new
    → (if ltb 0 u.cfg.max_concurrent
        then (u'.active + counted old.stage ≡ u.active + counted new.stage)
          × (u'.active ≤ u.cfg.max_concurrent)
        else u'.active ≡ 0)
    → u'.results + reported old ≡ u.results + reported new
    → IsCapped u'
replace-IsCapped i old new u u' e c k l s a r =
    let counts = sum_by-set (λ leg. counted leg.stage) u.legs i old new e in
    let reports = sum_by-set reported u.legs i old new e in
    record {
      active_is = ground (arith, c.active_is, counts, l, k, a);
      below_max = ground (arith, k, a);
      results_are = rw l (omega (arith, reports, c.results_are, r));
      respond_so = subst (Each Responds) (sym l) (Each-set Responds u.legs i new c.respond_so s);
    }

pub if-IsCapped :
    (b : Bool) {x y : RegisteredUas}
    → (b ≡ true → IsCapped x)
    → (b ≡ false → IsCapped y)
    → IsCapped (if b then x else y)
if-IsCapped true f g = f refl
if-IsCapped false f g = g refl
