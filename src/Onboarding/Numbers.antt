-- ===== src/Onboarding/Numbers.antt =====
-- The numbers that src/domain/members and src/domain/onboarding give to members.
use box_fraise_server.Prelude.{
  ℕ, suc, ◌≡◌, ◌<◌, refl, ap₂, Bool, true, false, ◌&&◌, ◌||◌, Option, none, some, arith, List, [],
  ◌∷◌, ◌++◌, All, All-append, is_some, ltb, ◌==◌,
}
use box_fraise_server.Table.{exists, update}
use box_fraise_server.Table.Laws.{changed}
use box_fraise_server.Table.Distinct.{
  All-of_exists, All-update, All-map, All-both, Distinct, Distinct-insert,
}
use box_fraise_server.Members.Types.{UserStatus, pending, verified, User}
use box_fraise_server.Members.Repository.{new_member}
use box_fraise_server.Onboarding.Repository.{pending_user, is_pending_user, promoted_user}

abbrev same_number : Option ℕ → Option ℕ → Bool
same_number none b = false
same_number (some m) none = false
same_number (some m) (some n) = m == n

abbrev pub same_member : User → User → Bool
same_member a b = a.id == b.id || same_number a.member_no b.member_no

-- From 1, and before the next of the sequence.
abbrev pub is_drawn : ℕ → Option ℕ → Bool
is_drawn seq none = true
is_drawn seq (some n) = ltb 0 n && ltb n seq

abbrev pub is_verified : UserStatus → Bool
is_verified pending = false
is_verified verified = true

pub record IsNumbered (users : List User) (seq : ℕ) : Type 0 where
  -- no two users share an id or a number
  pub distinct : Distinct same_member users
  pub drawn : All (λ u. is_drawn seq u.member_no ≡ true) users
  -- a number goes with the status
  pub matching : All (λ u. is_verified u.status ≡ is_some u.member_no) users

-- What one request may do to the users and the sequence.
pub data Draw (users : List User) (seq : ℕ) : List User → ℕ → Type 0 where
  kept : Draw users seq users seq
  -- a number that a rollback lost
  burned : Draw users seq users (suc seq)
  joined :
      (now id event admin : ℕ)
      → exists (λ u. u.id == id) users ≡ false
      → 0 < seq
      → Draw users seq (users ++ new_member now id event admin seq ∷ []) (suc seq)
  registered :
      (now id : ℕ)
      → exists (λ u. u.id == id) users ≡ false
      → Draw users seq (users ++ pending_user now id ∷ []) seq
  scanned :
      (now user event admin : ℕ)
      → 0 < seq
      → Draw users seq
          (update (is_pending_user user) (promoted_user now event admin seq) users)
          (suc seq)

same_number_sym : (a b : Option ℕ) → same_number a b ≡ same_number b a
same_number_sym none none = refl
same_number_sym none (some n) = refl
same_number_sym (some m) none = refl
same_number_sym (some m) (some n) = ground arith

same_member_sym : (a b : User) → same_member a b ≡ same_member b a
same_member_sym a b = ap₂ ◌||◌ (ground arith) (same_number_sym a.member_no b.member_no)

is_drawn-suc : (seq : ℕ) (o : Option ℕ) → is_drawn seq o ≡ true → is_drawn (suc seq) o ≡ true
is_drawn-suc seq o h = ground arith

-- A new id, and a number that was never drawn, are nobody's.
unlike :
    (seq : ℕ) (u q : User)
    → (q.id == u.id) ≡ false
    → is_drawn seq q.member_no ≡ true
    → same_number q.member_no u.member_no ≡ false
    → same_member q u ≡ false
unlike seq u q apart drawn other = ground arith

undrawn : (seq : ℕ) (o : Option ℕ) → is_drawn seq o ≡ true → same_number o (some seq) ≡ false
undrawn seq o h = ground arith

unnumbered : (o : Option ℕ) → same_number o none ≡ false
unnumbered o = ground arith

scanned-apart :
    (now user event admin seq : ℕ) (q r : User)
    → same_member q r ≡ false
    → is_drawn seq q.member_no ≡ true
    → is_drawn seq r.member_no ≡ true
    → let p = is_pending_user user in
      let f = promoted_user now event admin seq in
      same_member (changed p f q) (changed p f r) ≡ false
scanned-apart now user event admin seq q r apart a b = ground arith

-- The users that a number, once drawn, leaves to be told from.
unlike_all :
    (users : List User) (seq : ℕ) (u : User)
    → exists (λ q. q.id == u.id) users ≡ false
    → ((q : User) → is_drawn seq q.member_no ≡ true → same_number q.member_no u.member_no ≡ false)
    → All (λ q. is_drawn seq q.member_no ≡ true) users
    → All (λ q. same_member q u ≡ false) users
unlike_all users seq u fresh other drawn =
    All-map (λ q. ((q.id == u.id) ≡ false) × (is_drawn seq q.member_no ≡ true))
      (λ q. same_member q u ≡ false) users (λ q (apart, d). unlike seq u q apart d (other q d))
      (All-both (λ q. (q.id == u.id) ≡ false) (λ q. is_drawn seq q.member_no ≡ true) users
        (All-of_exists (λ q. q.id == u.id) users fresh) drawn)

insert-IsNumbered :
    (users : List User) (seq next : ℕ) (u : User)
    → exists (λ q. q.id == u.id) users ≡ false
    → ((q : User) → is_drawn seq q.member_no ≡ true → same_number q.member_no u.member_no ≡ false)
    → ((q : User) → is_drawn seq q.member_no ≡ true → is_drawn next q.member_no ≡ true)
    → is_drawn next u.member_no ≡ true
    → is_verified u.status ≡ is_some u.member_no
    → IsNumbered users seq
    → IsNumbered (users ++ u ∷ []) next
insert-IsNumbered users seq next u fresh other later drawn match w = record {
  distinct =
      Distinct-insert same_member users u (λ q. same_member_sym q u) w.distinct
        (unlike_all users seq u fresh other w.drawn);
  drawn =
      All-append (λ q. is_drawn next q.member_no ≡ true) users (u ∷ [])
        (All-map (λ q. is_drawn seq q.member_no ≡ true) (λ q. is_drawn next q.member_no ≡ true)
          users later w.drawn)
        (drawn, tt);
  matching =
      All-append (λ q. is_verified q.status ≡ is_some q.member_no) users (u ∷ []) w.matching
        (match, tt);
}

scanned-Distinct :
    (now user event admin seq : ℕ) (users : List User)
    → All (λ u. is_drawn seq u.member_no ≡ true) users
    → Distinct same_member users
    → Distinct same_member (update (is_pending_user user) (promoted_user now event admin seq) users)
unfolding update
scanned-Distinct now user event admin seq [] a d = tt
scanned-Distinct now user event admin seq (r ∷ users) a d =
    let p = is_pending_user user in
    let f = promoted_user now event admin seq in
    (
      All-update (λ q. (same_member q r ≡ false) × (is_drawn seq q.member_no ≡ true))
          (λ q. same_member q (changed p f r) ≡ false) p f users
          (λ q (apart, drawn). scanned-apart now user event admin seq q r apart drawn a.0)
          (All-both (λ q. same_member q r ≡ false) (λ q. is_drawn seq q.member_no ≡ true) users d.0
            a.1),
      scanned-Distinct now user event admin seq users a.1 d.1,
    )

scanned-drawn :
    (now user event admin seq : ℕ) (u : User)
    → 0 < seq
    → is_drawn seq u.member_no ≡ true
    → is_drawn
        (suc seq)
        (changed (is_pending_user user) (promoted_user now event admin seq) u).member_no
      ≡ true
scanned-drawn now user event admin seq u positive h = ground arith

scanned-matching :
    (now user event admin seq : ℕ) (u : User)
    → is_verified u.status ≡ is_some u.member_no
    → let s = changed (is_pending_user user) (promoted_user now event admin seq) u in
      is_verified s.status ≡ is_some s.member_no
scanned-matching now user event admin seq u h = ground arith

pub Draw-IsNumbered :
    (users : List User) (seq : ℕ) {us : List User} {n : ℕ}
    → Draw users seq us n
    → IsNumbered users seq
    → IsNumbered us n
Draw-IsNumbered users seq kept w = w
Draw-IsNumbered users seq burned w = record {
  distinct = w.distinct;
  drawn =
      All-map (λ q. is_drawn seq q.member_no ≡ true) (λ q. is_drawn (suc seq) q.member_no ≡ true)
        users (λ q. is_drawn-suc seq q.member_no) w.drawn;
  matching = w.matching;
}
Draw-IsNumbered users seq (joined now id event admin fresh positive) w =
    insert-IsNumbered users seq (suc seq) (new_member now id event admin seq) fresh
      (λ q. undrawn seq q.member_no) (λ q. is_drawn-suc seq q.member_no) (ground arith) refl w
Draw-IsNumbered users seq (registered now id fresh) w =
    insert-IsNumbered users seq seq (pending_user now id) fresh (λ q _. unnumbered q.member_no)
      (λ q d. d) refl refl w
Draw-IsNumbered users seq (scanned now user event admin positive) w = record {
  distinct = scanned-Distinct now user event admin seq users w.drawn w.distinct;
  drawn =
      All-update (λ q. is_drawn seq q.member_no ≡ true) (λ q. is_drawn (suc seq) q.member_no ≡ true)
        (is_pending_user user) (promoted_user now event admin seq) users
        (λ q. scanned-drawn now user event admin seq q positive) w.drawn;
  matching =
      All-update (λ q. is_verified q.status ≡ is_some q.member_no)
        (λ q. is_verified q.status ≡ is_some q.member_no) (is_pending_user user)
        (promoted_user now event admin seq) users (scanned-matching now user event admin seq)
        w.matching;
}
