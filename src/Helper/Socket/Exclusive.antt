-- ===== src/Helper/Socket/Exclusive.antt =====
-- The lock among the helpers that share a socket path (programs/helper.c).
use vmnet_helper.Prelude.{
  ℕ, ◌≡◌, ◌≢◌, sym, ◌∙◌, subst, inl, inr, Bool, some, String, arith, ◌==◌, Bool-cases,
}
use vmnet_helper.System.{ret, fail}
use vmnet_helper.Process.{open_lock, remove, bind, chmod, Call, sys, Reply, call, ended}
use vmnet_helper.Process.Protocol.{Obeys}
use native.Mathlib.Decide.{ℕ_discrete}
use vmnet_helper.Options.{Options, Uuid}
use vmnet_helper.Options.Valid.{Accepted}
use vmnet_helper.Helper.Startup.Orderly.{main-Obeys-lock_protocol}
use vmnet_helper.Helper.Socket.Lock.{Phase, held, released, PermitsCall, after, lock_protocol}
use vmnet_helper.Helper.Socket.Sharing.{
  LockFile, present, update, without, Run, Answers, Helpers, Step, calls, dies, Reach, here, next,
  starting,
}

module _ (path : String) where
  -- A process that holds the lock has locked the file at the path, and every process obeys the discipline.
  pub record IsExclusive (s : Helpers path) : Type 0 where
    pub locked : (i : ℕ) → s.phase i ≡ held → s.file ≡ present (some i)
    pub obeys : (i : ℕ) → Obeys (lock_protocol path) (λ x r. Unit) (s.phase i) (s.program i)

  -- The call that process `i` makes next is allowed.
  call_allowed :
      (x : Phase) (p : Run) (c : Call) (k : Reply c → Run)
      → p ≡ call c k
      → Obeys (lock_protocol path) (λ x r. Unit) x p
      → PermitsCall path x c
        × ((r : Reply c) → Obeys (lock_protocol path) (λ x r. Unit) (after path x c r) (k r))
  call_allowed x p c k e h =
      let h' = subst (λ p. Obeys (lock_protocol path) (λ x r. Unit) x p) e h in
      (h'.0, λ r. h'.1 r tt)

  update_other : {A : Type 0} (f : ℕ → A) (i : ℕ) (a : A) (j : ℕ) → j ≢ i → update f i a j ≡ f j
  update_other f i a j ne = ground arith

  -- What a call leaves of the lock: of the process that made it, and of another.
  own_lock :
      (i : ℕ) (x : Phase) (c : Call) (r : Reply c) (f f' : LockFile)
      → (x ≡ held → f ≡ present (some i))
      → PermitsCall path x c
      → Answers path i c r f f'
      → after path x c r ≡ held
      → f' ≡ present (some i)
  own_lock i x (sys (open_lock p)) (ret n) f f' locked permitted answer h = answer.1
  own_lock i x (sys (open_lock p)) (fail e) f f' locked permitted answer h = answer ∙ locked h
  own_lock i x (sys (remove p)) (ret n) f f' locked permitted answer h = ground (arith, locked)
  own_lock i x (sys (remove p)) (fail e) f f' locked permitted answer h = ground (arith, locked)
  own_lock i x (sys (bind fd p)) r f f' locked permitted answer h = answer ∙ locked h
  own_lock i x _ r f f' locked permitted answer h = answer ∙ locked h

  other_lock :
      (i j : ℕ) (x : Phase) (c : Call) (r : Reply c) (f f' : LockFile)
      → j ≢ i
      → (x ≡ held → f ≡ present (some i))
      → PermitsCall path x c
      → Answers path i c r f f'
      → f ≡ present (some j)
      → f' ≡ present (some j)
  other_lock i j x (sys (open_lock p)) (ret n) f f' ne locked permitted answer h = ground arith
  other_lock i j x (sys (open_lock p)) (fail e) f f' ne locked permitted answer h = answer ∙ h
  other_lock i j x (sys (remove p)) (ret n) f f' ne locked permitted answer h =
      ground (arith, locked)
  other_lock i j x (sys (remove p)) (fail e) f f' ne locked permitted answer h = answer ∙ h
  other_lock i j x (sys (bind fd p)) r f f' ne locked permitted answer h = answer ∙ h
  other_lock i j x _ r f f' ne locked permitted answer h = answer ∙ h

  without_other :
      (i j : ℕ) (f : LockFile) → j ≢ i → f ≡ present (some j) → without i f ≡ present (some j)
  without_other i j f ne h = rw h (ground arith)

  module _ (s : Helpers path) (x : IsExclusive s) where
    locked_after :
        (i : ℕ) (c : Call) (k : Reply c → Run) (r : Reply c) (file : LockFile)
        → s.program i ≡ call c k
        → Answers path i c r s.file file
        → (j : ℕ) → update s.phase i (after path (s.phase i) c r) j ≡ held
        → file ≡ present (some j)
    locked_after i c k r file e answer j h =
        let allowed = (call_allowed (s.phase i) (s.program i) c k e (x.obeys i)).0 in
        elim (ℕ_discrete j i) [
          | yes same ↦
              subst (λ j. file ≡ present (some j)) (sym same)
                (own_lock i (s.phase i) c r s.file file (x.locked i) allowed answer
                  (ground (arith, h, same)))
          | no differ ↦
              other_lock i j (s.phase i) c r s.file file differ (x.locked i) allowed answer
                (x.locked j (sym (update_other s.phase i _ j differ) ∙ h))
        ]

    after-Obeys :
        (i : ℕ) (c : Call) (k : Reply c → Run) (r : Reply c)
        → s.program i ≡ call c k
        → (j : ℕ)
        → Obeys
            (lock_protocol path)
            (λ x r. Unit)
            (update s.phase i (after path (s.phase i) c r) j)
            (update s.program i (k r) j)
    after-Obeys i c k r e j = elim (Bool-cases (j == i)) [
      | inl same ↦ rw same ((call_allowed (s.phase i) (s.program i) c k e (x.obeys i)).1 r)
      | inr differ ↦ rw differ (x.obeys j)
    ]

    locked_after_death :
        (i j : ℕ) → update s.phase i released j ≡ held → without i s.file ≡ present (some j)
    locked_after_death i j h = elim (ℕ_discrete j i) [
      | yes same ↦ ground (arith, same, h)
      | no differ ↦
          without_other i j s.file differ
            (x.locked j (sym (update_other s.phase i released j differ) ∙ h))
    ]

    released-Obeys :
        (i j : ℕ)
        → Obeys
            (lock_protocol path)
            (λ x r. Unit)
            (update s.phase i released j)
            (update s.program i (ended 0) j)
    released-Obeys i j = elim (Bool-cases (j == i)) [
      | inl same ↦ rw same tt
      | inr differ ↦ rw differ (x.obeys j)
    ]

  -- Every step keeps the lock exclusive.
  pub Step-IsExclusive : {s t : Helpers path} → Step path s t → IsExclusive s → IsExclusive t
  Step-IsExclusive {s} (calls i c k r file e answer) x = record {
    locked = locked_after s x i c k r file e answer;
    obeys = after-Obeys s x i c k r e;
  }
  Step-IsExclusive {s} (dies i) x = record {
    locked = locked_after_death s x i;
    obeys = released-Obeys s x i;
  }

  pub Reach-IsExclusive : {s t : Helpers path} → IsExclusive s → Reach path s t → IsExclusive t
  Reach-IsExclusive x here = x
  Reach-IsExclusive x (next r step) = Step-IsExclusive step (Reach-IsExclusive x r)

  -- The calls that change the socket at `path`.
  abbrev pub ChangesSocket : Call → Type 0
  ChangesSocket (sys (remove p)) = p ≡ path
  ChangesSocket (sys (bind fd p)) = p ≡ path
  ChangesSocket (sys (chmod p)) = p ≡ path
  ChangesSocket _ = ⊥

  changes_held : (x : Phase) (c : Call) → ChangesSocket c → PermitsCall path x c → x ≡ held
  changes_held x (sys (remove p)) h permitted = permitted.1
  changes_held x (sys (bind fd p)) h permitted = permitted.1
  changes_held x (sys (chmod p)) h permitted = permitted.1
  changes_held x _ h permitted = absurd h

  -- Whatever the schedule, a helper that is about to remove, bind or chmod the socket has locked the lock file,
  -- and no other helper is about to do so. The helpers run `main` with options that `parse_options` accepts and no socket
  -- but `path`; the lock file may exist or be locked at the start; `open` takes the lock in one step.
  pub socket-exclusive :
      (u : Uuid → Bool) (options : ℕ → Options) (fuel : ℕ → ℕ) (file : LockFile) {t : Helpers path}
      → ((i : ℕ) → Accepted (options i))
      → ((i : ℕ) (p : String) → (options i).socket ≡ some p → p ≡ path)
      → Reach path (starting path u options fuel file) t
      → (i j : ℕ) (c d : Call) (k : Reply c → Run) (l : Reply d → Run) → t.program i ≡ call c k
      → t.program j ≡ call d l
      → ChangesSocket c
      → ChangesSocket d
      → (t.file ≡ present (some i)) × (i ≡ j)
  unfolding starting
  socket-exclusive u options fuel file {t} accepted at reach i j c d k l ei ej ci cd =
      let x =
        Reach-IsExclusive
          (record {
            locked = λ i h. cc;
            obeys = λ i. main-Obeys-lock_protocol u path (options i) (fuel i) (accepted i) (at i);
          })
          reach in
      let hi = x.locked i (
        changes_held (t.phase i) c ci
          (call_allowed (t.phase i) (t.program i) c k ei (x.obeys i)).0) in
      let hj = x.locked j (
        changes_held (t.phase j) d cd
          (call_allowed (t.phase j) (t.program j) d l ej (x.obeys j)).0) in
      (hi, cc (hi, hj))
