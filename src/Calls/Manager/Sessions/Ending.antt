-- ===== src/Calls/Manager/Sessions/Ending.antt =====
-- Ending calls: `cleanup` in a loop, `Stop`, `Hangup`, and what they leave as it was.
use air_whatsbot.Common.{
  ℕ, ◌≡◌, ◌≢◌, refl, ap, sym, ◌∙◌, String, true, none, some, List, [], ◌∷◌, nat_beq_refl,
  ne→nat_beq, string_eq, ◌==◌, length, Run, Returns, Returns-bind, Returns-imp, Bool-cases, All,
  ◌⊎◌, Option-cases, none≢some, inl, inr,
}
use air_whatsbot.Common.Map.{lookup, All-keys, lookup-empty, keys, lookup-delete, beq_refl}
use air_whatsbot.Calls.Manager.State.{Manager, Host}
use air_whatsbot.Calls.Manager.Sessions.{cleanup, range_active, stop}
use air_whatsbot.Calls.Manager.Sessions.Lifecycle.{Inv, cleanup-absent, cleanup-eq, finished-Inv}
use air_whatsbot.Calls.Manager.Sessions.Effects.{finished}

module _ {Err File : Type 0} where
  -- What ending calls may change: calls leave the map, their sessions ended, and an ended session
  -- stays as it is.
  pub record Shrinks (m m' : Manager Err File) : Type 0 where
    pub inv : Inv m'
    pub ended_same : (q : ℕ) → (m.sessions q).ended ≡ true → m'.sessions q ≡ m.sessions q
    pub no_new : (id : String) (q : ℕ) → lookup id m'.active ≡ some q → lookup id m.active ≡ some q
    pub left :
        (id : String) (q : ℕ)
        → lookup id m.active ≡ some q
        → (lookup id m'.active ≡ some q) ⊎ ((m'.sessions q).ended ≡ true)

  pub Shrinks-refl : (m : Manager Err File) → Inv m → Shrinks m m
  Shrinks-refl m v = record {
    inv = v;
    ended_same = λ q e. refl;
    no_new = λ id q e. e;
    left = λ id q e. inl e;
  }

  pub Shrinks-trans : (a b c : Manager Err File) → Shrinks a b → Shrinks b c → Shrinks a c
  Shrinks-trans a b c r s = record {
    inv = s.inv;
    ended_same = λ q e. s.ended_same q (rw (r.ended_same q e) e) ∙ r.ended_same q e;
    no_new = λ id q e. r.no_new id q (s.no_new id q e);
    left = λ id q e. elim (r.left id q e) [
      | inl x ↦ s.left id q x
      | inr x ↦ inr (rw (s.ended_same q x) x)
    ];
  }

  pub Shrinks-gone :
      (m m' : Manager Err File) (id : String)
      → Shrinks m m'
      → lookup id m.active ≡ none
      → lookup id m'.active ≡ none
  Shrinks-gone m m' id s h = elim (Option-cases (lookup id m'.active)) [
    | inl e ↦ e
    | inr (q, e) ↦ absurd (none≢some (sym h ∙ s.no_new id q e))
  ]

  pub nothing_left :
      (m m' : Manager Err File)
      → Shrinks m m'
      → All (λ id. lookup id m'.active ≡ none) (keys m.active)
      → m'.active ≡ []
  nothing_left m m' s gone = lookup-empty m'.active (λ id.
      elim (Option-cases (lookup id m'.active)) [
        | inl e ↦ e
        | inr (q, e) ↦
            All-keys (λ i. lookup i m'.active ≡ none) id q m.active gone (s.no_new id q e)
      ])

  pub left_empty :
      (m m' : Manager Err File)
      → Shrinks m m'
      → m'.active ≡ []
      → (id : String) (q : ℕ) → lookup id m.active ≡ some q
      → (m'.sessions q).ended ≡ true
  unfolding lookup
  left_empty m m' s empty id q e = elim (s.left id q e) [
    | inl x ↦ absurd (none≢some (sym (ap (lookup id) empty) ∙ x))
    | inr x ↦ x
  ]

module _ {Err File : Type 0} (host : Host Err File) where
  ended_apart :
      (id : String) (p q : ℕ) (m : Manager Err File)
      → Inv m
      → lookup id m.active ≡ some p
      → p ≡ q
      → (m.sessions q).ended ≢ true
  ended_apart id p q m v a pq e =
      let u = (v.live id p a).unended in
      let same : (m.sessions p).ended ≡ (m.sessions q).ended = ap (λ r. (m.sessions r).ended) pq in
      cc

  ended_now :
      (id id' : String) (p q : ℕ) (m : Manager Err File)
      → lookup id m.active ≡ some p
      → lookup id' m.active ≡ some q
      → (id == id') ≡ true
      → ((finished host id p m).sessions q).ended ≡ true
  ended_now id id' p q m a b y =
      let pq : some p ≡ some q =
        sym a ∙ ap (λ i. lookup i m.active) ((string_eq.agrees id id').0 y) ∙ b in
      let e : p ≡ q = cc in rw (sym e) (rw (nat_beq_refl p) refl)

  finished-Shrinks :
      (id : String) (p : ℕ) (m : Manager Err File)
      → Inv m
      → lookup id m.active ≡ some p
      → Shrinks m (finished host id p m)
  finished-Shrinks id p m v a = record {
    inv = finished-Inv host id p m v a;
    ended_same = λ q e. rw (ne→nat_beq p q (λ pq. ended_apart id p q m v a pq e)) refl;
    no_new = λ id' q e. elim (Bool-cases (id == id')) [
      | inl y ↦ absurd (none≢some (sym (lookup-delete id id' m.active ∙ rw y refl) ∙ e))
      | inr n ↦ sym (lookup-delete id id' m.active ∙ rw n refl) ∙ e
    ];
    left = λ id' q e. elim (Bool-cases (id == id')) [
      | inl y ↦ inr (ended_now id id' p q m a e y)
      | inr n ↦ inl ((lookup-delete id id' m.active ∙ rw n refl) ∙ e)
    ];
  }

  pub cleanup-Shrinks :
      (id : String) (m : Manager Err File)
      → Inv m
      → Returns (cleanup host id m) (λ m'. Shrinks m m' × lookup id m'.active ≡ none)
  cleanup-Shrinks id m v = elim (Option-cases (lookup id m.active)) [
    | inl e ↦ rw (cleanup-absent host id m e) (Shrinks-refl m v, e)
    | inr (p, e) ↦
        rw (cleanup-eq host id p m v e)
          (finished-Shrinks id p m v e, lookup-delete id id m.active ∙ rw (beq_refl id) refl)
  ]

module _ {Err File : Type 0} where
  -- A callback that ends the call it is given, in a `Range`, ends all of them.
  pub range_active-Shrinks :
      (f : String → Manager Err File → Run (Manager Err File))
      → ((id : String) (m : Manager Err File)
          → Inv m
          → Returns (f id m) (λ m'. Shrinks m m' × lookup id m'.active ≡ none))
      → (ids : List String) (m : Manager Err File) → Inv m
      → Returns
          (range_active f ids m)
          (λ m'. Shrinks m m' × All (λ id. lookup id m'.active ≡ none) ids)
  unfolding range_active
  range_active-Shrinks f ends [] m v = (Shrinks-refl m v, tt)
  range_active-Shrinks f ends (id ∷ ids) m v =
      Returns-bind (f id m) (range_active f ids) (λ m'. Shrinks m m' × lookup id m'.active ≡ none)
        (λ m'. Shrinks m m' × All (λ i. lookup i m'.active ≡ none) (id ∷ ids)) (ends id m v)
        (λ m1 (s, gone).
          Returns-imp (range_active f ids m1)
            (λ m'. Shrinks m1 m' × All (λ i. lookup i m'.active ≡ none) ids)
            (λ m'. Shrinks m m' × All (λ i. lookup i m'.active ≡ none) (id ∷ ids))
            (λ m' (s', all). (Shrinks-trans m m1 m' s s', (Shrinks-gone m1 m' id s' gone, all)))
            (range_active-Shrinks f ends ids m1 s.inv))

module _ {Err File : Type 0} (host : Host Err File) where
  -- In a manager that keeps the invariant, `Stop` never panics or blocks, leaves no active call and
  -- a gauge of 0, ends the session of every call that was active, and changes no session that had
  -- ended before.
  pub stop_lem :
      (m : Manager Err File)
      → Inv m
      → Returns (stop host m) (λ m'.
        (m'.active ≡ [])
        × (m'.active_gauge ≡ 0)
        × ((id : String) (q : ℕ) → lookup id m.active ≡ some q → (m'.sessions q).ended ≡ true)
        × ((q : ℕ) → (m.sessions q).ended ≡ true → m'.sessions q ≡ m.sessions q))
  unfolding stop
  stop_lem m v =
      Returns-imp (stop host m)
        (λ m'. Shrinks m m' × All (λ id. lookup id m'.active ≡ none) (keys m.active))
        (λ m'.
          (m'.active ≡ [])
          × (m'.active_gauge ≡ 0)
          × ((id : String) (q : ℕ) → lookup id m.active ≡ some q → (m'.sessions q).ended ≡ true)
          × ((q : ℕ) → (m.sessions q).ended ≡ true → m'.sessions q ≡ m.sessions q))
        (λ m' (s, gone).
          let empty = nothing_left m m' s gone in
          (
            empty,
            s.inv.gauge ∙ ap (λ a. length (keys a)) empty,
            (λ id q e. left_empty m m' s empty id q e),
            s.ended_same,
          ))
        (range_active-Shrinks (cleanup host) (cleanup-Shrinks host) (keys m.active) m v)
