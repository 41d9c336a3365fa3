-- ===== src/Sip/Call/Ends.antt =====
-- How a call ends, in every interleaving of its goroutines.
use xk6_sip_media.Prelude.{
  ℕ, zero, suc, ◌+◌, ◌-◌, ◌≡◌, refl, ◌∙◌, ◌⊎◌, Bool, true, false, ◌&&◌, Option, none, some, List,
  [], ◌∷◌, arith,
}
use xk6_sip_media.Prelude.{ltb, ◌==◌, if◌then◌else◌, Option-cases, none_differs, inl, inr}
use xk6_sip_media.Prelude.Bytes.{u64}
use xk6_sip_media.Prelude.{◌++◌, subst_some}
use xk6_sip_media.Prelude.Pull.{pull, pull-Perm}
use mathlib.Core.List.{Perm, perm_middle}
use mathlib.Core.List.Perm
use mathlib.Core.Path.{subst}
use xk6_sip_media.Sip.Call.{Direction, sendrecv, inactive, CallError, CallHandle, new_handle}
use xk6_sip_media.Sip.Call.{
  take_version, transmit, reinvite_error, finish_hold, finish_transfer, deactivate, close_stop,
  finalize,
}
use xk6_sip_media.Sip.Call.Interleave.{
  Action, act, when, run, begin_hold, number_hold, send_hold, end_hold, begin_unhold, number_unhold,
  send_unhold, end_unhold, begin_transfer, end_transfer, begin_hangup, end_hangup, worker_ends,
  finalizes,
}

-- The versions count up from 1, the latest first.
abbrev pub Versions : ℕ → List ℕ → Type 0
Versions n [] = n ≡ 0
Versions n (v ∷ rest) = (v ≡ n) × ((m : ℕ) × (n ≡ u64 (m + 1)) × Versions m rest)

abbrev pub versions_of : List (Direction × ℕ) → List ℕ
versions_of [] = []
versions_of ((d, v) ∷ rest) = v ∷ versions_of rest

-- The versions taken are those of the re-INVITEs and those that wait to be sent, each once.
pub record Numbered (n : ℕ) (reinvites : List (Direction × ℕ)) (holds unholds : List ℕ)
    : Type 0 where
  pub taken : List ℕ
  pub counted : Versions n taken
  pub each_once : Perm (versions_of reinvites ++ (holds ++ unholds)) taken

pub record IsConsistent (h : CallHandle) : Type 0 where
  pub one_bye : h.byes + h.hanging ≡ (if h.active then 0 else 1)
  pub stop_is : h.stop_closed ≡ ltb 0 h.byes
  pub done_is : h.done ≡ (h.done && h.stop_closed && h.workers == 0)
  pub versions : Numbered h.sdp_ver h.reinvites h.hold_ready h.unhold_ready

number_hold-Numbered :
    (n : ℕ) (rs : List (Direction × ℕ)) (holds unholds : List ℕ)
    → Numbered n rs holds unholds
    → Numbered (u64 (n + 1)) rs (u64 (n + 1) ∷ holds) unholds
number_hold-Numbered n rs holds unholds c = record {
  taken = u64 (n + 1) ∷ c.taken;
  counted = (refl, (n, refl, c.counted));
  each_once =
      Perm.trans (perm_middle (versions_of rs) (holds ++ unholds))
        (Perm.cons (u64 (n + 1)) c.each_once);
}

number_unhold-Numbered :
    (n : ℕ) (rs : List (Direction × ℕ)) (holds unholds : List ℕ)
    → Numbered n rs holds unholds
    → Numbered (u64 (n + 1)) rs holds (u64 (n + 1) ∷ unholds)
number_unhold-Numbered n rs holds unholds c = record {
  taken = u64 (n + 1) ∷ c.taken;
  counted = (refl, (n, refl, c.counted));
  each_once = Perm.trans (Perm.append_left (versions_of rs) (perm_middle holds unholds)) (
      Perm.trans (perm_middle (versions_of rs) (holds ++ unholds))
        (Perm.cons (u64 (n + 1)) c.each_once));
}

send_hold-Numbered :
    (n v : ℕ) (d : Direction) (rs : List (Direction × ℕ)) (holds rest unholds : List ℕ)
    → Perm holds (v ∷ rest)
    → Numbered n rs holds unholds
    → Numbered n ((d, v) ∷ rs) rest unholds
send_hold-Numbered n v d rs holds rest unholds p c = record {
  taken = c.taken;
  counted = c.counted;
  each_once = Perm.trans (Perm.symm (perm_middle (versions_of rs) (rest ++ unholds))) (
      Perm.trans (Perm.append_left (versions_of rs) (Perm.append_right unholds (Perm.symm p)))
        c.each_once);
}

send_unhold-Numbered :
    (n v : ℕ) (d : Direction) (rs : List (Direction × ℕ)) (holds unholds rest : List ℕ)
    → Perm unholds (v ∷ rest)
    → Numbered n rs holds unholds
    → Numbered n ((d, v) ∷ rs) holds rest
send_unhold-Numbered n v d rs holds unholds rest p c = record {
  taken = c.taken;
  counted = c.counted;
  each_once = Perm.trans (Perm.symm (perm_middle (versions_of rs) (holds ++ rest))) (
      Perm.trans
        (Perm.append_left (versions_of rs)
          (Perm.trans (Perm.symm (perm_middle holds rest)) (Perm.append_left holds (Perm.symm p))))
        c.each_once);
}

finish_hold-IsConsistent :
    (on : Bool) (e : Option CallError) (h : CallHandle)
    → IsConsistent h
    → IsConsistent (finish_hold on e h)
unfolding finish_hold
finish_hold-IsConsistent on none h c = record {
  one_bye = c.one_bye;
  stop_is = c.stop_is;
  done_is = c.done_is;
  versions = c.versions;
}
finish_hold-IsConsistent on (some e) h c = c

after_when : (b : Bool) {h h' : CallHandle} → IsConsistent h → when b h ≡ some h' → IsConsistent h'
after_when true {h = h} {h' = h'} c e = let q : h ≡ h' = cc in subst IsConsistent q c
after_when false c e = cc

act-IsConsistent :
    (a : Action) (h h' : CallHandle) → act a h ≡ some h' → IsConsistent h → IsConsistent h'
unfolding act take_version transmit deactivate close_stop finalize finish_transfer
act-IsConsistent begin_hold h h' e c = ground (arith, c)
act-IsConsistent number_hold h h' e c =
    let n = number_hold-Numbered h.sdp_ver h.reinvites h.hold_ready h.unhold_ready c.versions in
    after_when (ltb 0 h.hold_passed)
      (record { one_bye = c.one_bye; stop_is = c.stop_is; done_is = c.done_is; versions = n }) e
act-IsConsistent (send_hold i) h h' e c = elim (Option-cases (pull i h.hold_ready)) [
  | inl f ↦ absurd (none_differs (rw f at e))
  | inr ((v, rest), f) ↦
      let n =
        send_hold-Numbered h.sdp_ver v inactive h.reinvites h.hold_ready rest h.unhold_ready
          (pull-Perm i h.hold_ready v rest f) c.versions in
      subst_some IsConsistent
        (record { one_bye = c.one_bye; stop_is = c.stop_is; done_is = c.done_is; versions = n })
        (rw f at e)
]
act-IsConsistent (end_hold reply ack_ok) h h' e c =
    let ending = record h { hold_waits = h.hold_waits - 1 } in
    after_when _
      (finish_hold-IsConsistent true (reinvite_error reply ack_ok) ending (record {
        one_bye = c.one_bye;
        stop_is = c.stop_is;
        done_is = c.done_is;
        versions = c.versions;
      }))
      e
act-IsConsistent begin_unhold h h' e c = ground (arith, c)
act-IsConsistent number_unhold h h' e c =
    let n = number_unhold-Numbered h.sdp_ver h.reinvites h.hold_ready h.unhold_ready c.versions in
    after_when (ltb 0 h.unhold_passed)
      (record { one_bye = c.one_bye; stop_is = c.stop_is; done_is = c.done_is; versions = n }) e
act-IsConsistent (send_unhold i) h h' e c = elim (Option-cases (pull i h.unhold_ready)) [
  | inl f ↦ absurd (none_differs (rw f at e))
  | inr ((v, rest), f) ↦
      let n =
        send_unhold-Numbered h.sdp_ver v sendrecv h.reinvites h.hold_ready h.unhold_ready rest
          (pull-Perm i h.unhold_ready v rest f) c.versions in
      subst_some IsConsistent
        (record { one_bye = c.one_bye; stop_is = c.stop_is; done_is = c.done_is; versions = n })
        (rw f at e)
]
act-IsConsistent (end_unhold reply ack_ok) h h' e c =
    let ending = record h { unhold_waits = h.unhold_waits - 1 } in
    after_when _
      (finish_hold-IsConsistent false (reinvite_error reply ack_ok) ending (record {
        one_bye = c.one_bye;
        stop_is = c.stop_is;
        done_is = c.done_is;
        versions = c.versions;
      }))
      e
act-IsConsistent begin_transfer h h' e c = ground (arith, c)
act-IsConsistent (end_transfer reply) h h' e c = ground (arith, c)
act-IsConsistent begin_hangup h h' e c = ground (arith, c)
act-IsConsistent end_hangup h h' e c = ground (arith, c)
act-IsConsistent worker_ends h h' e c = ground (arith, c)
act-IsConsistent finalizes h h' e c = ground (arith, c)

run-cons :
    (a : Action) (acts : List Action) (h k : CallHandle) {h' : CallHandle}
    → act a h ≡ some k
    → run acts k ≡ some h'
    → run (a ∷ acts) h ≡ some h'
unfolding run
run-cons a acts h k e f = rw e f

run-IsConsistent :
    (acts : List Action) (h h' : CallHandle)
    → IsConsistent h
    → run acts h ≡ some h'
    → IsConsistent h'
unfolding run
run-IsConsistent [] h h' c e = let q : h ≡ h' = cc in subst IsConsistent q c
run-IsConsistent (a ∷ acts) h h' c e = elim (Option-cases (act a h)) [
  | inl stuck ↦ absurd (none_differs (rw stuck at e))
  | inr (k, stepped) ↦
      run-IsConsistent acts k h' (act-IsConsistent a h k stepped c) (rw stepped at e)
]

pub new_handle-IsConsistent : (workers : ℕ) → IsConsistent (new_handle workers)
unfolding new_handle
new_handle-IsConsistent workers = record {
  one_bye = refl;
  stop_is = refl;
  done_is = refl;
  versions = record { taken = []; counted = refl; each_once = Perm.refl [] };
}

-- From a handle as Dial returns it, whatever its goroutines do and in whatever order: at most one
-- BYE is sent and `stop` is closed at most once, both only after the call has become inactive;
-- `done` is closed only after `stop` is and all workers have ended; and the session versions 1, 2,
-- 3, ... that were taken are those of the re-INVITEs sent and those still to be sent, each once.
pub run-new_handle :
    (workers : ℕ) (acts : List Action) (h' : CallHandle)
    → run acts (new_handle workers) ≡ some h'
    → IsConsistent h'
run-new_handle workers acts h' =
    run-IsConsistent acts (new_handle workers) h' (new_handle-IsConsistent workers)

-- The workers end one by one, and then the finalizer runs.
finish_up : ℕ → List Action
finish_up zero = finalizes ∷ []
finish_up (suc n) = worker_ends ∷ finish_up n

finish_up-ends :
    (n : ℕ) (h : CallHandle)
    → h.workers ≡ n
    → h.stop_closed ≡ true
    → h.done ≡ false
    → (h' : CallHandle) × (run (finish_up n) h ≡ some h') × (h'.done ≡ true)
unfolding finish_up run act finalize
finish_up-ends zero h w s d = (finalize h, ground (arith, w, s, d), refl)
finish_up-ends (suc n) h w s d =
    let k = record h { workers = h.workers - 1 } in
    let (h', e, f) = finish_up-ends n k (omega (arith, w)) s d in
    (h', run-cons worker_ends (finish_up n) h k (ground (arith, w)) e, f)

-- The second segment of the one Hangup that has found the call active.
hang_up-ends :
    (h : CallHandle)
    → h.hanging ≡ 1
    → h.done ≡ false
    → (acts : List Action) × (h' : CallHandle) × (run acts h ≡ some h') × (h'.done ≡ true)
unfolding act close_stop
hang_up-ends h w d =
    let k = record h { hanging = h.hanging - 1; stop_closed = true; byes = h.byes + 1 } in
    let (h', e, f) = finish_up-ends k.workers k refl refl d in
    (
      end_hangup ∷ finish_up k.workers,
      h',
      run-cons end_hangup (finish_up k.workers) h k (ground (arith, w)) e,
      f,
    )

bool_cases : (b : Bool) → (b ≡ true) ⊎ (b ≡ false)
bool_cases true = inl refl
bool_cases false = inr refl

-- A Hangup can always bring a call to its end: from every state of a call, some steps of its own
-- goroutines, among them those of one Hangup if none was made, lead to `done` closed.
pub call_can_end :
    (h : CallHandle)
    → IsConsistent h
    → (acts : List Action) × (h' : CallHandle) × (run acts h ≡ some h') × (h'.done ≡ true)
unfolding run act deactivate
call_can_end h c = elim (bool_cases h.done) [
  | inl over ↦ ([], h, refl, over)
  | inr undone ↦ elim (bool_cases h.active) [
    | inl up ↦
        let k = record h { hanging = h.hanging + 1; active = false } in
        let (acts, h', e, f) = hang_up-ends k (ground (arith, c.one_bye, up)) undone in
        (begin_hangup ∷ acts, h', run-cons begin_hangup acts h k (ground (arith, up)) e, f)
    | inr down ↦ elim (bool_cases (ltb 0 h.byes)) [
      | inl sent ↦
          let (h', e, f) = finish_up-ends h.workers h refl (c.stop_is ∙ sent) undone in
          (finish_up h.workers, h', e, f)
      | inr unsent ↦ hang_up-ends h (ground (arith, c.one_bye, down, unsent)) undone
    ]
  ]
]

-- No transfer is under way or can begin, and the result denies one.
record Forgotten (h : CallHandle) : Type 0 where
  pub is_over : h.active ≡ false
  pub none_waits : h.transfer_waits ≡ 0
  pub denied : h.transfer_ok ≡ false

act-Forgotten : (a : Action) (h h' : CallHandle) → act a h ≡ some h' → Forgotten h → Forgotten h'
unfolding act take_version transmit finish_hold deactivate close_stop finalize
act-Forgotten begin_hold h h' e f = ground (arith, f)
act-Forgotten number_hold h h' e f = ground (arith, f)
act-Forgotten (send_hold i) h h' e f = ground (arith, f)
act-Forgotten (end_hold reply ack_ok) h h' e f = ground (arith, f)
act-Forgotten begin_unhold h h' e f = ground (arith, f)
act-Forgotten number_unhold h h' e f = ground (arith, f)
act-Forgotten (send_unhold i) h h' e f = ground (arith, f)
act-Forgotten (end_unhold reply ack_ok) h h' e f = ground (arith, f)
act-Forgotten begin_transfer h h' e f = ground (arith, f)
act-Forgotten (end_transfer reply) h h' e f = ground (arith, f)
act-Forgotten begin_hangup h h' e f = ground (arith, f)
act-Forgotten end_hangup h h' e f = ground (arith, f)
act-Forgotten worker_ends h h' e f = ground (arith, f)
act-Forgotten finalizes h h' e f = ground (arith, f)

run-Forgotten :
    (acts : List Action) (h h' : CallHandle)
    → Forgotten h
    → run acts h ≡ some h'
    → h'.transfer_ok ≡ false
unfolding run
run-Forgotten [] h h' f e = let q : h ≡ h' = cc in subst (λ k. k.transfer_ok ≡ false) q f.denied
run-Forgotten (a ∷ acts) h h' f e = elim (Option-cases (act a h)) [
  | inl stuck ↦ absurd (none_differs (rw stuck at e))
  | inr (k, stepped) ↦ run-Forgotten acts k h' (act-Forgotten a h k stepped f) (rw stepped at e)
]

-- Once a call is final and no transfer waits for its answer, its result says that no transfer
-- succeeded, also where one did: the finalizer replaces the result that the transfer had marked.
pub transfer_forgotten :
    (acts : List Action) (h k h' : CallHandle)
    → IsConsistent h
    → h.transfer_waits ≡ 0
    → act finalizes h ≡ some k
    → run acts k ≡ some h'
    → h'.transfer_ok ≡ false
unfolding act finalize
transfer_forgotten acts h k h' c w f =
    run-Forgotten acts k h' (ground (arith, c.one_bye, c.stop_is, w, f))
