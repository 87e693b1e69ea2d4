-- ===== src/Idempotency/Replay.antt =====
-- What the requests that carry one key get: the first, a retry, and a different request.
use schapp.Base.{
  ℕ, ◌≡◌, refl, ◌∙◌, true, false, none, some, List, [], ◌∷◌, Text, text_eq, text_eq_refl, arith,
  inl, inr, Bool-cases, ltb, length, if◌then◌else◌, text_eq_iff, sym, ap,
}
use schapp.Idempotency.{
  Request, Response, IdempotencyRecord, World, Answer, answered, raised, find_record, release,
  remember, claimed, conflict_with, replay, passes, run_claimed, call, key_reused, in_progress,
  max_key_length, fingerprint, is_dropped, answered_claim, ended,
}

find-release : (k : Text) (rs : List IdempotencyRecord) → find_record k (release k rs) ≡ none
unfolding find_record release
find-release k [] = refl
find-release k (r ∷ rs) = ground (arith, find-release k rs)

-- The view leaves the claims alone.
abbrev pub KeepsRecords : {D : Type 0} → (Request → World D → Answer × World D) → Type 0
KeepsRecords {D} view = (r : Request) (w : World D) → (view r w).1.records ≡ w.records

-- A request that reaches the claim.
pub record IsClaiming {D : Type 0} (request : Request) (w : World D) : Type 0 where
  pub guarded : passes request ≡ false
  pub short : ltb max_key_length (length request.key) ≡ false
  pub unclaimed : find_record request.key w.records ≡ none

-- The view raised, or its answer is not one that the middleware keeps.
pub data IsRefused : Answer → Type 0 where
  by_exception : IsRefused raised
  by_answer : (r : Response) → is_dropped r ≡ true → IsRefused (answered r)

remember-kept :
    (decode : Text → Text) (now : ℕ) (k : Text) (r : Response) (c : IdempotencyRecord)
    (rs : List IdempotencyRecord)
    → is_dropped r ≡ false
    → c.key ≡ k
    → find_record k (remember decode now k r (c ∷ rs)) ≡ some (answered_claim decode now r c)
unfolding remember find_record
remember-kept decode now k r c rs h e = rw (h, e, text_eq_refl k, text_eq_refl k) refl

ended-refused :
    {D : Type 0} (decode : Text → Text) (now : ℕ) (k : Text) (a : Answer) (w : World D)
    → IsRefused a
    → find_record k (ended decode now k a w).1.records ≡ none
unfolding remember
ended-refused decode now k raised w by_exception = find-release k w.records
ended-refused decode now k (answered _) w (by_answer r h) = rw h (find-release k w.records)

module _ {D : Type 0} (sha256 decode : Text → Text)
    (view : Request → World D → Answer × World D) where
  abbrev pub under_claim : Request → World D → World D
  under_claim request w = record w { records = claimed sha256 request ∷ w.records }

  call_runs :
      (now : ℕ) (request : Request) (w : World D)
      → IsClaiming request w
      → call sha256 decode view now request w ≡ run_claimed sha256 decode view now request w
  unfolding call
  call_runs now request w c = rw (c.guarded, c.short, c.unclaimed) refl

  -- A request that claims a free key, and whose view raises, streams or answers with a code outside
  -- 200..299, leaves the key free.
  pub call-failed :
      (now : ℕ) (request : Request) (w : World D)
      → IsClaiming request w
      → IsRefused (view request (under_claim request w)).0
      → find_record request.key (call sha256 decode view now request w).1.records ≡ none
  unfolding run_claimed
  call-failed now request w c h = rw (call_runs now request w c) (
      ended-refused decode now request.key (view request (under_claim request w)).0
        (view request (under_claim request w)).1 h)

  same_fingerprint :
      (a b : Request)
      → a.method ≡ b.method
      → a.path ≡ b.path
      → a.body ≡ b.body
      → fingerprint sha256 a ≡ fingerprint sha256 b
  unfolding fingerprint
  same_fingerprint a b em ep eb = rw (em, ep, eb) refl

  conflict-replay :
      (now : ℕ) (r : Response) (request again : Request)
      → text_eq (fingerprint sha256 request) (fingerprint sha256 again) ≡ true
      → conflict_with sha256 again (answered_claim decode now r (claimed sha256 request))
        ≡ replay (answered_claim decode now r (claimed sha256 request))
  unfolding conflict_with
  conflict-replay now r request again h = rw h refl

  call-kept :
      (now : ℕ) (request : Request) (w : World D) (r : Response)
      → KeepsRecords view
      → IsClaiming request w
      → (view request (under_claim request w)).0 ≡ answered r
      → is_dropped r ≡ false
      → find_record request.key (call sha256 decode view now request w).1.records
        ≡ some (answered_claim decode now r (claimed sha256 request))
  unfolding run_claimed
  call-kept now request w r keeps c e ok =
      rw (call_runs now request w c, e, keeps request (under_claim request w))
        (remember-kept decode now request.key r (claimed sha256 request) w.records ok refl)

  call_known :
      (now : ℕ) (request : Request) (existing : IdempotencyRecord) (w : World D)
      → passes request ≡ false
      → ltb max_key_length (length request.key) ≡ false
      → find_record request.key w.records ≡ some existing
      → call sha256 decode view now request w
        ≡ (answered (conflict_with sha256 request existing), w)
  unfolding call
  call_known now request existing w p l h = rw (p, l, h) refl

  claim_found :
      (first second : Request) (w : World D)
      → second.key ≡ first.key
      → find_record second.key (under_claim first w).records ≡ some (claimed sha256 first)
  unfolding find_record
  claim_found first second w e = rw ((text_eq_iff first.key second.key).1 (sym e)) refl

  conflict_running :
      (first second : Request)
      → conflict_with sha256 second (claimed sha256 first) ≡ (
          if text_eq (fingerprint sha256 first) (fingerprint sha256 second)
          then in_progress
          else key_reused)
  unfolding conflict_with
  conflict_running first second =
      elim (Bool-cases (text_eq (fingerprint sha256 first) (fingerprint sha256 second))) [
        | inl e ↦ rw e refl
        | inr e ↦ rw e refl
      ]

  abbrev conflict_answer : Request → Request → Response
  conflict_answer first second =
      if text_eq (fingerprint sha256 first) (fingerprint sha256 second)
      then in_progress
      else key_reused

  conflict_answer-dropped :
      (first second : Request) → is_dropped (conflict_answer first second) ≡ true
  conflict_answer-dropped first second =
      elim (Bool-cases (text_eq (fingerprint sha256 first) (fingerprint sha256 second))) [
        | inl e ↦ rw (conflict_answer, e) refl
        | inr e ↦ rw (conflict_answer, e) refl
      ]

  -- The view of a first request while which a second one is made, and which answers what that got.
  abbrev pub meanwhile : ℕ → Request → Request → World D → Answer × World D
  meanwhile later second first w = call sha256 decode view later second w

  refused_meanwhile :
      (later : ℕ) (first second : Request) (w : World D)
      → second.key ≡ first.key
      → passes second ≡ false
      → ltb max_key_length (length second.key) ≡ false
      → call sha256 decode view later second (under_claim first w)
        ≡ (answered (conflict_answer first second), under_claim first w)
  refused_meanwhile later first second w e p l =
      call_known later second (claimed sha256 first) (under_claim first w) p l
        (claim_found first second w e)
      ∙ ap (λ a. (answered a, under_claim first w)) (conflict_running first second)

  release_claim :
      (first : Request) (rs : List IdempotencyRecord)
      → release first.key (claimed sha256 first ∷ rs) ≡ release first.key rs
  unfolding release
  release_claim first rs = rw (text_eq_refl first.key) refl

  -- A retry: once a request has claimed a free key and its view, which leaves the claims alone, has
  -- answered with a code in 200..299 that is not streamed, the next request that the middleware
  -- does not pass on, with the same key, method, path and body, gets the stored answer, marked as a
  -- replay, and the world stays as it is.
  pub call-replay :
      (now later : ℕ) (request again : Request) (w : World D) (r : Response)
      → KeepsRecords view
      → IsClaiming request w
      → (view request (under_claim request w)).0 ≡ answered r
      → is_dropped r ≡ false
      → again.key ≡ request.key
      → again.method ≡ request.method
      → again.path ≡ request.path
      → again.body ≡ request.body
      → passes again ≡ false
      → let after = (call sha256 decode view now request w).1 in
        call sha256 decode view later again after
        ≡ (answered (replay (answered_claim decode now r (claimed sha256 request))), after)
  call-replay now later request again w r keeps c e ok ek em ep eb p =
      let kept = call-kept now request w r keeps c e ok in
      let key : text_eq (fingerprint sha256 request) (fingerprint sha256 again) ≡ true =
        (text_eq_iff _ _).1 (sym (same_fingerprint again request em ep eb)) in
      call_known later again _ _ p (rw ek c.short) (rw ek kept)
      ∙ ap (λ a. (answered a, (call sha256 decode view now request w).1))
          (conflict-replay now r request again key)

module _ {D : Type 0} (sha256 decode : Text → Text)
    (view : Request → World D → Answer × World D) where
  -- A second request is made while the view of a first one runs that has claimed a free key. Where
  -- the middleware does not pass the second on and its key is the same, it is told that the first
  -- is in progress if their fingerprints are the same and that the key was reused if not, and the
  -- view behind it does not run. Here the first answers what the second was told, so that its key
  -- is free afterwards; nothing else changes.
  pub call-concurrent :
      (now later : ℕ) (first second : Request) (w : World D)
      → IsClaiming first w
      → second.key ≡ first.key
      → passes second ≡ false
      → call sha256 decode (meanwhile sha256 decode view later second) now first w ≡ (
        answered (
            if text_eq (fingerprint sha256 first) (fingerprint sha256 second)
            then in_progress
            else key_reused),
        record w { records = release first.key w.records },
      )
  unfolding run_claimed remember
  call-concurrent now later first second w c e p =
      let told = refused_meanwhile sha256 decode view later first second w e p (rw e c.short) in
      call_runs sha256 decode (meanwhile sha256 decode view later second) now first w c
      ∙ rw (told, conflict_answer-dropped sha256 decode view first second)
          (ap
            (λ rs. (
              answered (conflict_answer sha256 decode view first second),
              record w { records = rs },
            ))
            (release_claim sha256 decode view first w.records))
