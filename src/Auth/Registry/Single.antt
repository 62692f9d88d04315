-- ===== src/Auth/Registry/Single.antt =====
-- A user has at most one running authorisation, and a new one replaces the old one.
use air_whatsbot.Common.{
  ℕ, suc, ◌≤◌, ◌≡◌, refl, ap, String, true, false, List, [], ◌∷◌, ◌++◌, arith, nat_beq, nat_beq_iff,
  string_eq, ◌==◌, if◌then◌else◌, length, Bool-cases, inl, inr, ◌⊎◌, ltb→ge, Returns-imp, done,
  Returns, Returns-bind, All,
}
use air_whatsbot.Common.Map.{delete, insert}
use air_whatsbot.Common.Chan.{try_send, has_room}
use air_whatsbot.Auth.Registry.{
  State, Session, Registry, new_registry, has_user, add, remove, cancelled, cancel_round,
  cancel_user, Op, adds, removes, cancels, step, run, sessions_of,
}

-- The channel of a session is open: nothing in the program closes a session's channel while the
-- registry holds it.
abbrev pub IsOpen : String × Session → Type 0
IsOpen (id, s) = s.state_chan.closed ≡ false

-- A user has at most one session, and the channels are open.
pub record IsSingle (r : Registry) : Type 0 where
  pub single : (user : ℕ) → sessions_of user r ≤ 1
  pub opened : All IsOpen r

has_user-sessions_of : (user : ℕ) (r : Registry) → has_user user r ≡ false → sessions_of user r ≡ 0
unfolding has_user sessions_of
has_user-sessions_of user [] h = refl
has_user-sessions_of user ((id, s) ∷ r) h = ground (arith, has_user-sessions_of user r)

sessions_of-has_user : (user : ℕ) (r : Registry) → sessions_of user r ≡ 0 → has_user user r ≡ false
unfolding has_user sessions_of
sessions_of-has_user user [] h = refl
sessions_of-has_user user ((id, s) ∷ r) h = ground (arith, sessions_of-has_user user r)

sessions_of-delete :
    (user : ℕ) (id : String) (r : Registry) → sessions_of user (delete id r) ≤ sessions_of user r
unfolding sessions_of delete
sessions_of-delete user id [] = omega arith
sessions_of-delete user id ((j, s) ∷ r) = elim (Bool-cases (j == id)) [
  | inl e ↦ rw e (ground (arith, sessions_of-delete user id r))
  | inr e ↦ rw e (ground (arith, sessions_of-delete user id r))
]

opened-delete : (id : String) (r : Registry) → All IsOpen r → All IsOpen (delete id r)
unfolding delete
opened-delete id [] h = tt
opened-delete id ((j, s) ∷ r) (o, h) = elim (Bool-cases (j == id)) [
  | inl e ↦ rw e (opened-delete id r h)
  | inr e ↦ rw e (o, opened-delete id r h)
]

add-IsSingle :
    (id : String) (s : Session) (r : Registry)
    → s.state_chan.closed ≡ false
    → IsSingle r
    → IsSingle (add id s r).1
unfolding add insert sessions_of
add-IsSingle id s r o v = elim (Bool-cases (has_user s.user_id r)) [
  | inl e ↦ rw e v
  | inr e ↦ rw e (record {
    single = λ user. ground (
      arith,
      sessions_of-delete user id r,
      has_user-sessions_of s.user_id r e,
      v.single user,
      nat_beq_iff s.user_id user,
    );
    opened = (o, opened-delete id r v.opened);
  })
]

remove-IsSingle : (id : String) (r : Registry) → IsSingle r → IsSingle (remove id r)
unfolding remove
remove-IsSingle id r v = record {
  single = λ user. omega (arith, sessions_of-delete user id r, v.single user);
  opened = opened-delete id r v.opened;
}

-- The registry without a user's sessions.
unfoldable pub others : ℕ → Registry → Registry
others user [] = []
others user ((id, s) ∷ r) =
    let rest = others user r in if nat_beq s.user_id user then rest else (id, s) ∷ rest

sessions_of-others : (user : ℕ) (r : Registry) → sessions_of user (others user r) ≡ 0
unfolding others sessions_of
sessions_of-others user [] = refl
sessions_of-others user ((id, s) ∷ r) = ground (arith, sessions_of-others user r)

sessions_of-others_le :
    (user u : ℕ) (r : Registry) → sessions_of u (others user r) ≤ sessions_of u r
unfolding others sessions_of
sessions_of-others_le user u [] = omega arith
sessions_of-others_le user u ((id, s) ∷ r) = ground (arith, sessions_of-others_le user u r)

opened-others : (user : ℕ) (r : Registry) → All IsOpen r → All IsOpen (others user r)
unfolding others
opened-others user [] h = tt
opened-others user ((id, s) ∷ r) (o, h) = elim (Bool-cases (nat_beq s.user_id user)) [
  | inl e ↦ rw e (opened-others user r h)
  | inr e ↦ rw e (o, opened-others user r h)
]

-- The session was the user's, and was told unless its channel was full.
abbrev pub IsTold : ℕ → Session → Type 0
IsTold user s =
    (s.user_id ≡ user)
    × ((st : List State) × ((s.state_chan.buf ≡ st ++ cancelled ∷ [])
          ⊎ (s.state_chan.cap ≤ length s.state_chan.buf)))

abbrev pub Cancelled : ℕ → Registry → List Session × Registry → Type 0
Cancelled user r (told, r') =
    (r' ≡ others user r) × (length told ≡ sessions_of user r) × All (IsTold user) told

try_send-IsTold :
    (user : ℕ) (s : Session)
    → s.user_id ≡ user
    → s.state_chan.closed ≡ false
    → Returns (try_send cancelled s.state_chan) (λ c. IsTold user (record s { state_chan = c.0 }))
unfolding try_send
try_send-IsTold user s u o = elim (Bool-cases (has_room s.state_chan)) [
  | inl e ↦ rw (o, e) (u, (s.state_chan.buf, inl refl))
  | inr e ↦ rw (o, e) (u, ([], inr (ltb→ge _ _ e)))
]

-- In a registry whose sessions have open channels, `CancelUser` returns: it takes out exactly the
-- user's sessions, and each of them was told, or its channel is full.
cancel_user_lem :
    (user : ℕ) (r : Registry) → All IsOpen r → Returns (cancel_user user r) (Cancelled user r)
unfolding cancel_user sessions_of others
cancel_user_lem user [] h = (refl, refl, tt)
cancel_user_lem user ((id, s) ∷ r) (o, h) =
    Returns-bind (cancel_user user r) (cancel_round user (id, s)) (Cancelled user r)
      (Cancelled user ((id, s) ∷ r)) (cancel_user_lem user r h)
      (λ (told, r') (e, n, all). elim (Bool-cases (nat_beq s.user_id user)) [
        | inl y ↦ rw y (
            Returns-bind (try_send cancelled s.state_chan)
              (λ c. done (record s { state_chan = c.0 } ∷ told, r'))
              (λ c. IsTold user (record s { state_chan = c.0 })) (Cancelled user ((id, s) ∷ r))
              (try_send-IsTold user s ((nat_beq_iff s.user_id user).0 y) o)
              (λ c t. rw y (e, ap suc n, (t, all))))
        | inr y ↦ rw y (rw y (ap (λ x. (id, s) ∷ x) e), rw y n, all)
      ])

cancel_user-IsSingle :
    (user : ℕ) (r : Registry)
    → IsSingle r
    → Returns (cancel_user user r) (λ t. IsSingle t.1 × (sessions_of user t.1 ≡ 0))
cancel_user-IsSingle user r v =
    Returns-imp (cancel_user user r) (Cancelled user r)
      (λ t. IsSingle t.1 × (sessions_of user t.1 ≡ 0))
      (λ (told, r') (e, n, all). rw e (
        record {
          single = λ u. omega (arith, sessions_of-others_le user u r, v.single u);
          opened = opened-others user r v.opened;
        },
        sessions_of-others user r,
      ))
      (cancel_user_lem user r v.opened)

-- In a registry in which a user has at most one session and the channels are open, `Add` accepts a
-- session after `CancelUser` of its user.
cancel_user-add :
    (id : String) (s : Session) (r : Registry)
    → IsSingle r
    → Returns (cancel_user s.user_id r) (λ t. (add id s t.1).0 ≡ true)
unfolding add
cancel_user-add id s r v =
    Returns-imp (cancel_user s.user_id r) (λ t. IsSingle t.1 × (sessions_of s.user_id t.1 ≡ 0))
      (λ t. (add id s t.1).0 ≡ true)
      (λ t (_, none_left). rw (sessions_of-has_user s.user_id t.1 none_left) refl)
      (cancel_user-IsSingle s.user_id r v)

-- The channels that come in are open.
abbrev pub OpenOp : Op → Type 0
OpenOp (adds id s) = s.state_chan.closed ≡ false
OpenOp (removes id) = Unit
OpenOp (cancels user) = Unit

step-IsSingle : (op : Op) (r : Registry) → OpenOp op → IsSingle r → Returns (step op r) IsSingle
unfolding step
step-IsSingle (adds id s) r o v = add-IsSingle id s r o v
step-IsSingle (removes id) r o v = remove-IsSingle id r v
step-IsSingle (cancels user) r o v =
    Returns-bind (cancel_user user r) (λ (told, r'). done r')
      (λ t. IsSingle t.1 × (sessions_of user t.1 ≡ 0)) IsSingle (cancel_user-IsSingle user r v)
      (λ (told, r') (w, _). w)

run-from-IsSingle :
    (ops : List Op) (r : Registry) → All OpenOp ops → IsSingle r → Returns (run ops r) IsSingle
unfolding run
run-from-IsSingle [] r o v = v
run-from-IsSingle (op ∷ ops) r (o, os) v =
    Returns-bind (step op r) (run ops) IsSingle IsSingle (step-IsSingle op r o v)
      (λ r' w. run-from-IsSingle ops r' os w)

-- Whatever is added with an open channel, removed and cancelled, in any order, every operation
-- returns, and no user ever has more than one session in the registry.
pub run-IsSingle : (ops : List Op) → All OpenOp ops → Returns (run ops new_registry) IsSingle
unfolding new_registry sessions_of
run-IsSingle ops o =
    run-from-IsSingle ops new_registry o (record { single = λ user. omega arith; opened = tt })
