-- ===== src/Realtime/Limiter/Caps.antt =====
-- The limiter keeps to its caps and gives back what it takes, until a counter expires.
use attendence_v.Prelude.{
  ℕ, ◌<◌, ◌≡◌, ◌≢◌, ◌⊎◌, inl, inr, refl, sym, ap, ◌∙◌, String, true, false, arith, Bool-cases,
}
use attendence_v.Realtime.Integer.{ℤ, negsuc, suc_int, pred_int, above, pred-suc_int}
use attendence_v.Realtime.Limiter.{
  Counters, Limits, total_key, per_user_key, acquire_total, try_acquire, release,
}

module _ (counters : Counters) (limits : Limits) where
  open counters use {State}

  -- The two counters that an attempt of the user reads.
  abbrev pub users : ℕ → String → State → ℤ
  users t user_id s = counters.count t (per_user_key user_id) s

  abbrev pub total : ℕ → State → ℤ
  total t s = counters.count t total_key s

  module _ (t : ℕ) (user_id : String) (distinct : per_user_key user_id ≢ total_key)
      (lasting : 0 < limits.ttl_seconds) where
    acquire_total_lem :
        (s : State)
        → let (won, s') = acquire_total counters limits t user_id s in
          (above (suc_int (total t s)) limits.total_cap ≡ true
            → (won ≡ false)
              × (users t user_id s' ≡ pred_int (users t user_id s))
              × (total t s' ≡ total t s))
          × (above (suc_int (total t s)) limits.total_cap ≡ false
              → (won ≡ true)
                × (users t user_id s' ≡ users t user_id s)
                × (total t s' ≡ suc_int (total t s)))
    unfolding acquire_total
    acquire_total_lem s =
        let u = per_user_key user_id in
        let s1 = counters.expire t u limits.ttl_seconds s in
        let s2 = (counters.incr t total_key s1).1 in
        let total1 = (counters.expire_same t u total_key limits.ttl_seconds s lasting).0 in
        let value = counters.incr_value t total_key s1 ∙ ap suc_int total1 in
        let users2 =
          (counters.incr_other t total_key u s1 distinct).0
          ∙ (counters.expire_same t u u limits.ttl_seconds s lasting).0 in
        let total2 = counters.incr_count t total_key s1 ∙ ap suc_int total1 in
        let s3 = counters.decr t total_key s2 in
        (
          λ h.
              rw (value, h)
                ((
                  refl,
                  counters.decr_count t u s3
                      ∙ ap pred_int (counters.decr_other t total_key u s2 distinct ∙ users2),
                  counters.decr_other t u total_key s3 (λ e. distinct (sym e))
                      ∙ counters.decr_count t total_key s2
                      ∙ ap pred_int total2
                      ∙ pred-suc_int (total t s),
                )),
          λ h.
              rw (value, h)
                ((
                  refl,
                  (counters.expire_same t total_key u limits.ttl_seconds s2 lasting).0 ∙ users2,
                  (counters.expire_same t total_key total_key limits.ttl_seconds s2 lasting).0
                      ∙ total2,
                )),
        )

  -- An attempt succeeds exactly if one more connection exceeds neither cap. Then both counters have
  -- gone up by one; if it is refused, both read what they read before.
  pub try_acquire_lem :
      (t : ℕ) (user_id : String) (s : State)
      → per_user_key user_id ≢ total_key
      → 0 < limits.ttl_seconds
      → let (won, s') = try_acquire counters limits t user_id s in
        let full =
          (above (suc_int (users t user_id s)) limits.per_user_cap ≡ true)
          ⊎ (above (suc_int (total t s)) limits.total_cap ≡ true) in
        (full → (won ≡ false) × (users t user_id s' ≡ users t user_id s) × (total t s' ≡ total t s))
        × ((full → ⊥)
            → (won ≡ true)
              × (users t user_id s' ≡ suc_int (users t user_id s))
              × (total t s' ≡ suc_int (total t s)))
  unfolding try_acquire
  try_acquire_lem t user_id s distinct lasting =
      let u = per_user_key user_id in
      let s1 = (counters.incr t u s).1 in
      let value = counters.incr_value t u s in
      let total1 = (counters.incr_other t u total_key s (λ e. distinct (sym e))).0 in
      let users1 = counters.incr_count t u s in
      ground (
        arith,
        value,
        total1,
        users1,
        counters.decr_count t u s1,
        counters.decr_other t u total_key s1 (λ e. distinct (sym e)),
        pred-suc_int (users t user_id s),
        acquire_total_lem t user_id distinct lasting s1,
      )

  -- Attempts keep both counters within their caps.
  try_acquire_keeps_caps :
      (t : ℕ) (user_id : String) (s : State)
      → per_user_key user_id ≢ total_key
      → 0 < limits.ttl_seconds
      → above (users t user_id s) limits.per_user_cap ≡ false
      → above (total t s) limits.total_cap ≡ false
      → let s' = (try_acquire counters limits t user_id s).1 in
        (above (users t user_id s') limits.per_user_cap ≡ false)
        × (above (total t s') limits.total_cap ≡ false)
  try_acquire_keeps_caps t user_id s distinct lasting h k =
      let e = try_acquire_lem t user_id s distinct lasting in
      elim (Bool-cases (above (suc_int (users t user_id s)) limits.per_user_cap)) [
        | inl a ↦ ground (arith, e, a)
        | inr a ↦ ground (arith, e, a)
      ]

  won_exists :
      (t : ℕ) (user_id : String) (s : State)
      → per_user_key user_id ≢ total_key
      → 0 < limits.ttl_seconds
      → (try_acquire counters limits t user_id s).0 ≡ true
      → counters.exists t (per_user_key user_id) (try_acquire counters limits t user_id s).1 ≡ true
  unfolding try_acquire acquire_total
  won_exists t user_id s distinct lasting won =
      let u = per_user_key user_id in
      let s1 = (counters.incr t u s).1 in
      let s2 = counters.expire t u limits.ttl_seconds s1 in
      let s3 = (counters.incr t total_key s2).1 in
      let kept =
        (counters.expire_same t total_key u limits.ttl_seconds s3 lasting).1
        ∙ (counters.incr_other t total_key u s2 distinct).1
        ∙ (counters.expire_same t u u limits.ttl_seconds s1 lasting).1
        ∙ counters.incr_exists t u s in
      ground (arith, kept)

  release_lem :
      (t : ℕ) (user_id : String) (s : State)
      → per_user_key user_id ≢ total_key
      → counters.exists t (per_user_key user_id) s ≡ true
      → (users t user_id (release counters limits t user_id s) ≡ pred_int (users t user_id s))
        × (total t (release counters limits t user_id s) ≡ pred_int (total t s))
  unfolding release
  release_lem t user_id s distinct there =
      let u = per_user_key user_id in
      let s1 = counters.decr t u s in
      ground (
        arith,
        there,
        counters.decr_count t u s,
        counters.decr_other t total_key u s1 distinct,
        counters.decr_count t total_key s1,
        counters.decr_other t u total_key s (λ e. distinct (sym e)),
      )

  -- A connection that is released while its user's counter has not expired gives back what it
  -- took: both counters read as before the attempt.
  release_restores :
      (t : ℕ) (user_id : String) (s : State)
      → per_user_key user_id ≢ total_key
      → 0 < limits.ttl_seconds
      → (try_acquire counters limits t user_id s).0 ≡ true
      → let s' = release counters limits t user_id (try_acquire counters limits t user_id s).1 in
        (users t user_id s' ≡ users t user_id s) × (total t s' ≡ total t s)
  release_restores t user_id s distinct lasting won =
      let s1 = (try_acquire counters limits t user_id s).1 in
      let there = won_exists t user_id s distinct lasting won in
      ground (
        arith,
        try_acquire_lem t user_id s distinct lasting,
        release_lem t user_id s1 distinct there,
        pred-suc_int (users t user_id s),
        pred-suc_int (total t s),
      )

  -- A release after both counters have expired leaves the total at −1.
  pub release_underflows :
      (t : ℕ) (user_id : String) (s : State)
      → counters.exists t (per_user_key user_id) s ≡ false
      → counters.exists t total_key s ≡ false
      → total t (release counters limits t user_id s) ≡ negsuc 0
  unfolding release pred_int
  release_underflows t user_id s gone gone' =
      ground
        (arith, gone, counters.decr_count t total_key s, counters.count_missing t total_key s gone')
