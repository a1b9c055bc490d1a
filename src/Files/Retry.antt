-- ===== src/Files/Retry.antt =====
-- What a claim writes into a row that may be claimed: an expired claim is taken over whole, and a
-- failed row is not, where the server evaluates assignments from left to right.
use tdcs.Prelude.{
  ℕ, ◌+◌, ◌<◌, ◌≡◌, ◌≢◌, refl, ap, ◌⊎◌, Option, none, some, List, [], ◌∷◌, Bool, true, false, ◌&&◌,
  ◌||◌, arith, All, ◌==◌, eq_iff, text_eq, number_eq, Bool-cases, inl, inr,
}
use tdcs.Prelude.Dict.{put, get-put, beq_refl}
use tdcs.FileRef.{FileRef}
use tdcs.Files.{
  claimed, processing, failed, key_eq, Row, Db, find, Engine, Instance, same_status, may_claim,
  assign_in_order, assign, unchanged, key_of, upsert, try_claim, mark_processing,
}
use tdcs.Files.Claims.{
  Call, claims, starts, Quiet, run_calls, run_calls-Quiet, All-map, find-put, update_where_hit,
  update_where_miss,
}

may_claim_expired :
    (max_retries now t : ℕ) (r : Row)
    → (r.status ≡ claimed) ⊎ (r.status ≡ processing)
    → r.claim_expires_at ≡ some t
    → t < now
    → may_claim max_retries now r ≡ true
unfolding may_claim
may_claim_expired max_retries now t r s x late = ground arith

-- A row whose claim has run out is taken over whole, whatever the server's order of assignments:
-- it is CLAIMED by the new instance, from now, until the claim timeout after now.
pub assign_expired :
    (e : Engine) (i : Instance) (max_retries now t : ℕ) (r : Row)
    → (r.status ≡ claimed) ⊎ (r.status ≡ processing)
    → r.claim_expires_at ≡ some t
    → t < now
    → assign e i max_retries now r ≡ record r {
      status = claimed;
      claimed_by = i.instance_id;
      claimed_at = now;
      claim_expires_at = some (now + i.claim_timeout);
    }
unfolding assign
assign_expired e i max_retries now t r s x late =
    let r1 : Row = record r { status = claimed } in
    let r2 : Row = record r1 { claimed_by = i.instance_id } in
    let r3 : Row = record r2 { claimed_at = now } in
    let c : may_claim max_retries now r ≡ true = may_claim_expired max_retries now t r s x late in
    let c1 : may_claim max_retries now r1 ≡ true =
      may_claim_expired max_retries now t r1 (inl refl) x late in
    let c2 : may_claim max_retries now r2 ≡ true =
      may_claim_expired max_retries now t r2 (inl refl) x late in
    let c3 : may_claim max_retries now r3 ≡ true =
      may_claim_expired max_retries now t r3 (inl refl) x late in
    elim (Bool-cases e.left_to_right) [
      | inl o ↦ rw o (rw c (rw c1 (rw c2 (rw c3))))
      | inr o ↦ rw o (rw c)
    ]

-- the row of a failed file, claimed from left to right
assign_failed :
    (e : Engine) (i : Instance) (max_retries now : ℕ) (r : Row)
    → e.left_to_right ≡ true
    → r.status ≡ failed
    → r.claim_expires_at ≡ none
    → r.retry_count < max_retries
    → assign e i max_retries now r ≡ record r { status = claimed }
unfolding assign assign_in_order may_claim
assign_failed e i max_retries now r o s x few = ground arith

-- any claim, at any time, or a start by another instance than the one that the row names
abbrev pub StartsElsewhere : Row → Call → Type 0
StartsElsewhere r (claims i ref max_retries now) = Unit
StartsElsewhere r (starts i k) = i.instance_id ≢ r.claimed_by

-- without an expiry no claim takes the row
no_expiry-Quiet :
    (r : Row) (c : Call)
    → (r.status ≡ claimed) ⊎ (r.status ≡ processing)
    → r.claim_expires_at ≡ none
    → StartsElsewhere r c
    → Quiet r c
unfolding may_claim
no_expiry-Quiet r (claims i ref max_retries now) s x o = ground arith
no_expiry-Quiet r (starts i k) s x o = ground (arith, eq_iff r.claimed_by i.instance_id)

module _ (e : Engine) (i : Instance) (ref : FileRef) (max_retries now : ℕ) (r : Row) (db : Db)
    (ordered : e.left_to_right ≡ true) (found : find (key_of ref) db ≡ some r)
    (was_failed : r.status ≡ failed) (no_expiry : r.claim_expires_at ≡ none)
    (few : r.retry_count < max_retries) where
  -- the row after the claim
  find-retry :
      find (key_of ref) (try_claim e i ref max_retries now db).1
      ≡ some (record r { status = claimed })
  unfolding try_claim upsert
  find-retry = rw found (
      rw get-put (
        rw (beq_refl (key_of ref))
          (rw (assign_failed e i max_retries now r ordered was_failed no_expiry few))))

  -- Where assignments run from left to right, a FAILED row without an expiry that another instance than its holder claims for a retry names the old
  -- holder still and has no expiry: the claiming instance cannot start it, and no claims at any
  -- time and no starts but the old holder's ever change it.
  pub retry_by_another_is_stuck :
      (cs : List Call)
      → i.instance_id ≢ r.claimed_by
      → All (StartsElsewhere r) cs
      → let db' = (try_claim e i ref max_retries now db).1 in
        ((mark_processing i (key_of ref) db').0 ≡ false)
        × (find (key_of ref) (run_calls e cs db') ≡ some (record r { status = claimed }))
  unfolding mark_processing
  retry_by_another_is_stuck cs other starts_elsewhere =
      let db' : Db = (try_claim e i ref max_retries now db).1 in
      let r' : Row = record r { status = claimed } in
      (
        ap (λ (x : Bool × Db). x.0)
            (update_where_miss (key_of ref) _ _ db' r' find-retry
              (ground (arith, eq_iff r.claimed_by i.instance_id))),
        run_calls-Quiet e cs (key_of ref) r' db' find-retry
            (All-map cs (λ c. no_expiry-Quiet r' c (inl refl) no_expiry) starts_elsewhere),
      )

  -- Where the old holder itself retries such a row, its start succeeds, and the row is PROCESSING
  -- without an expiry: no claims and starts, by any instances and at any times, ever change it.
  pub retry_by_holder_never_expires :
      (cs : List Call)
      → i.instance_id ≡ r.claimed_by
      → let db' = (try_claim e i ref max_retries now db).1 in
        let (started, db'') = mark_processing i (key_of ref) db' in
        (started ≡ true)
        × (find (key_of ref) (run_calls e cs db'') ≡ some (record r { status = processing }))
  unfolding mark_processing
  retry_by_holder_never_expires cs same =
      let db' : Db = (try_claim e i ref max_retries now db).1 in
      let r'' : Row = record r { status = processing } in
      let hit =
        update_where_hit (key_of ref)
          (λ r. r.claimed_by == i.instance_id && same_status r.status claimed)
          (λ r. record r { status = processing }) db' (record r { status = claimed }) find-retry
          (ground (arith, eq_iff r.claimed_by i.instance_id)) in
      rw hit (
        refl,
        run_calls-Quiet e cs (key_of ref) r'' (record db' { rows = put (key_of ref) r'' db'.rows })
            (rw find-put (rw (beq_refl (key_of ref)))) (All-map cs (λ c _. quiet c) (all_of cs)),
      )
    where
      quiet : (c : Call) → Quiet (record r { status = processing }) c
      quiet (claims j ref' m t) =
          no_expiry-Quiet (record r { status = processing }) (claims j ref' m t) (inr refl)
            no_expiry tt
      quiet (starts j k) = ground arith

      all_of : (cs : List Call) → All (λ _. Unit {0}) cs
      all_of [] = tt
      all_of (c ∷ cs) = (tt, all_of cs)

-- With CLIENT_FOUND_ROWS every claim reports success, also one that changed nothing.
pub try_claim-found_rows :
    (e : Engine) (i : Instance) (ref : FileRef) (max_retries now : ℕ) (db : Db)
    → e.found_rows ≡ true
    → (try_claim e i ref max_retries now db).0 ≡ true
unfolding try_claim
try_claim-found_rows e i ref max_retries now db flag = affected (find (key_of ref) db)
  where
    affected :
        (o : Option Row)
        → (let n = (upsert e i ref max_retries now o db).0 in n == 1 || n == 2) ≡ true
    affected none = unfold upsert in refl
    affected (some r) =
        unfold upsert in
        elim (Bool-cases (unchanged r (assign e i max_retries now r))) [
          | inl same ↦ rw same (rw flag)
          | inr changed ↦ rw changed
        ]
