-- ===== src/Rtp/Reactor/Prune.antt =====
-- A cycle of a shard, which prunes its slice in place.
use xk6_sip_media.Prelude.{
  ℕ, Bool-cases, ◌+◌, ◌-◌, ◌≡◌, Bool, true, false, List, [], ◌∷◌, ◌++◌, if◌then◌else◌, length,
  get_or, set, replicate, length-append, refl, arith, ap, ◌∙◌, sym, inl, inr,
}
use mathlib.Core.Path.{subst}
use xk6_sip_media.Rtp.Reactor.{Pruned, tick_loop, zero_tail, tick}
use mathlib.Core.List.{append_assoc}

unfoldable pub kept_of : (ℕ → Bool) → List ℕ → List ℕ
kept_of keep [] = []
kept_of keep (x ∷ xs) = let rest = kept_of keep xs in if keep x then x ∷ rest else rest

get_or-middle : (xs : List ℕ) (y : ℕ) (ys : List ℕ) → get_or (xs ++ y ∷ ys) (length xs) 0 ≡ y
get_or-middle [] y ys = refl
get_or-middle (x ∷ xs) y ys = get_or-middle xs y ys

set-middle : (xs : List ℕ) (y z : ℕ) (ys : List ℕ) → set (xs ++ y ∷ ys) (length xs) z ≡ xs ++ z ∷ ys
set-middle [] y z ys = refl
set-middle (x ∷ xs) y z ys = ap (λ t. x ∷ t) (set-middle xs y z ys)

zero_tail-all :
    (front back : List ℕ)
    → zero_tail (length back) (length front) (front ++ back) ≡ front ++ replicate (length back) 0
unfolding zero_tail
zero_tail-all front [] = refl
zero_tail-all front (y ∷ ys) =
    let longer : length (front ++ 0 ∷ []) ≡ length front + 1 = length-append front (0 ∷ []) in
    rw (zero_tail, set-middle front y 0 ys)
      (ap (λ t. zero_tail (length ys) t (front ++ 0 ∷ ys)) (sym longer)
        ∙ ap (zero_tail (length ys) (length (front ++ 0 ∷ [])))
            (sym (append_assoc front (0 ∷ []) ys))
        ∙ zero_tail-all (front ++ 0 ∷ []) ys
        ∙ append_assoc front (0 ∷ []) (replicate (length ys) 0))

-- What the loop leaves of an array that holds the kept items, then items that are done with, then
-- the items still to be ticked.
record Leaves (keep : ℕ → Bool) (kept gap todo : List ℕ) (t : Pruned) : Type 0 where
  rest : List ℕ
  items_are : t.items ≡ kept ++ (kept_of keep todo ++ rest)
  size : length (kept_of keep todo) + length rest ≡ length gap + length todo
  active_is : t.active ≡ length kept + length (kept_of keep todo)
  ticked_are : t.ticked ≡ todo

-- The gap after an item is kept: it moves up by one.
shift : List ℕ → ℕ → List ℕ
shift [] x = []
shift (y ∷ ys) x = ys ++ x ∷ []

length-shift : (gap : List ℕ) (x : ℕ) → length (shift gap x) ≡ length gap
unfolding shift
length-shift [] x = refl
length-shift (y ∷ ys) x = omega (arith, length-append ys (x ∷ []))

written :
    (kept gap : List ℕ) (x : ℕ) (xs : List ℕ)
    → set (kept ++ (gap ++ x ∷ xs)) (length kept) x ≡ (kept ++ x ∷ []) ++ (shift gap x ++ xs)
unfolding shift
written kept [] x xs = set-middle kept x x xs ∙ sym (append_assoc kept (x ∷ []) xs)
written kept (y ∷ ys) x xs =
    set-middle kept y x (ys ++ x ∷ xs)
    ∙ ap (λ t. kept ++ x ∷ t) (sym (append_assoc ys (x ∷ []) xs))
    ∙ sym (append_assoc kept (x ∷ []) ((ys ++ x ∷ []) ++ xs))

read-next :
    (kept gap : List ℕ) (x : ℕ) (xs : List ℕ)
    → get_or (kept ++ (gap ++ x ∷ xs)) (length kept + length gap) 0 ≡ x
read-next kept gap x xs =
    ap (λ t. get_or t (length kept + length gap) 0) (sym (append_assoc kept gap (x ∷ xs)))
    ∙ ap (λ t. get_or ((kept ++ gap) ++ x ∷ xs) t 0) (sym (length-append kept gap))
    ∙ get_or-middle (kept ++ gap) x xs

same_start :
    (keep : ℕ → Bool) (n : ℕ) {i j a b : ℕ} {l m : List ℕ}
    → i ≡ j
    → a ≡ b
    → l ≡ m
    → tick_loop keep n i a l ≡ tick_loop keep n j b m
same_start keep n e f g = cc

Leaves-kept :
    (keep : ℕ → Bool) (kept gap : List ℕ) (x : ℕ) (xs : List ℕ) (t : Pruned)
    → keep x ≡ true
    → Leaves keep (kept ++ x ∷ []) (shift gap x) xs t
    → Leaves keep kept gap (x ∷ xs) (record t { ticked = x ∷ t.ticked })
unfolding kept_of
Leaves-kept keep kept gap x xs t e h =
    let step : kept_of keep (x ∷ xs) ≡ x ∷ kept_of keep xs = ground (arith, e) in
    record {
      rest = h.rest;
      items_are =
          h.items_are
          ∙ append_assoc kept (x ∷ []) (kept_of keep xs ++ h.rest)
          ∙ ap (λ l. kept ++ (l ++ h.rest)) (sym step);
      size = ap (λ l. length l + length h.rest) step ∙ omega (arith, h.size, length-shift gap x);
      active_is =
          omega (arith, h.active_is, length-append kept (x ∷ []))
          ∙ ap (λ l. length kept + length l) (sym step);
      ticked_are = ap (λ l. x ∷ l) h.ticked_are;
    }

Leaves-dropped :
    (keep : ℕ → Bool) (kept gap : List ℕ) (x : ℕ) (xs : List ℕ) (t : Pruned)
    → keep x ≡ false
    → Leaves keep kept (gap ++ x ∷ []) xs t
    → Leaves keep kept gap (x ∷ xs) (record t { ticked = x ∷ t.ticked })
unfolding kept_of
Leaves-dropped keep kept gap x xs t e h =
    let step : kept_of keep (x ∷ xs) ≡ kept_of keep xs = ground (arith, e) in
    record {
      rest = h.rest;
      items_are = h.items_are ∙ ap (λ l. kept ++ (l ++ h.rest)) (sym step);
      size =
          ap (λ l. length l + length h.rest) step
          ∙ omega (arith, h.size, length-append gap (x ∷ []));
      active_is = h.active_is ∙ ap (λ l. length kept + length l) (sym step);
      ticked_are = ap (λ l. x ∷ l) h.ticked_are;
    }

tick_loop-Leaves :
    (keep : ℕ → Bool) (kept gap todo : List ℕ)
    → Leaves keep kept gap todo (
        tick_loop keep
          (length todo)
          (length kept + length gap)
          (length kept)
          (kept ++ (gap ++ todo)))
unfolding tick_loop kept_of
tick_loop-Leaves keep kept gap [] = record {
  rest = gap ++ [];
  items_are = refl;
  size = omega (arith, length-append gap []);
  active_is = omega arith;
  ticked_are = refl;
}
tick_loop-Leaves keep kept gap (x ∷ xs) =
    let array = kept ++ (gap ++ x ∷ xs) in
    let i = length kept + length gap in
    let at_kept : tick_loop keep (length xs) (i + 1) (length kept + 1) (set array (length kept) x)
        ≡ tick_loop keep (length xs) (length (kept ++ x ∷ []) + length (shift gap x))
            (length (kept ++ x ∷ [])) ((kept ++ x ∷ []) ++ (shift gap x ++ xs)) =
      same_start keep (length xs) (omega (arith, length-append kept (x ∷ []), length-shift gap x))
        (sym (length-append kept (x ∷ []))) (written kept gap x xs) in
    let at_gap : tick_loop keep (length xs) (i + 1) (length kept) array
        ≡ tick_loop keep (length xs) (length kept + length (gap ++ x ∷ [])) (length kept)
            (kept ++ ((gap ++ x ∷ []) ++ xs)) =
      same_start keep (length xs) (omega (arith, length-append gap (x ∷ []))) refl
        (ap (λ t. kept ++ t) (sym (append_assoc gap (x ∷ []) xs))) in
    let h = tick_loop-Leaves keep (kept ++ x ∷ []) (shift gap x) xs in
    let k = tick_loop-Leaves keep kept (gap ++ x ∷ []) xs in
    let read = read-next kept gap x xs in
    elim (Bool-cases (keep x)) [
      | inl e ↦ rw (read, e, at_kept) (Leaves-kept keep kept gap x xs _ e h)
      | inr e ↦ rw (read, e, at_gap) (Leaves-dropped keep kept gap x xs _ e k)
    ]

-- One cycle calls the Tick of every item of the shard exactly once and in order, and leaves the
-- items whose Tick returned true, in order, at the front of the backing array and nil in the rest
-- of it, although it prunes the slice while it reads it.
pub tick-pruned :
    (keep : ℕ → Bool) (items : List ℕ)
    → let t = tick keep items in
      let kept = kept_of keep items in
      (t.ticked ≡ items)
      × (t.active ≡ length kept)
      × (t.items ≡ kept ++ replicate (length items - length kept) 0)
unfolding tick
tick-pruned keep items =
    let zero_zero : length {A = ℕ} [] + length {A = ℕ} [] ≡ 0 = omega arith in
    let h : Leaves keep [] [] items (tick_loop keep (length items) 0 0 items) =
      subst (λ n. Leaves keep [] [] items (tick_loop keep (length items) n 0 items)) zero_zero
        (tick_loop-Leaves keep [] [] items) in
    let active : (tick_loop keep (length items) 0 0 items).active ≡ length (kept_of keep items) =
      omega (arith, h.active_is) in
    let left : length items - length (kept_of keep items) ≡ length h.rest = omega (arith, h.size) in
    (
      h.ticked_are,
      active,
      ap (λ a. zero_tail (length items - a) a (tick_loop keep (length items) 0 0 items).items)
            active
          ∙ ap
              (zero_tail (length items - length (kept_of keep items)) (length (kept_of keep items)))
              h.items_are
          ∙ ap (λ n. zero_tail n (length (kept_of keep items)) (kept_of keep items ++ h.rest)) left
          ∙ zero_tail-all (kept_of keep items) h.rest
          ∙ ap (λ n. kept_of keep items ++ replicate n 0) (sym left),
    )
