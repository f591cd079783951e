-- ===== src/GroupOrders/Wellformed.antt =====
-- What ties the rows of a session together.
use deliveryways.Prelude.{
  ℕ, ◌≡◌, refl, inl, inr, Bool, true, false, ◌&&◌, not, Option, none, some, List, [], ◌∷◌, ◌++◌,
  arith, ◌==◌, if◌then◌else◌, Bool-cases, is_some, every, find, select,
}
use deliveryways.GroupOrders.Store.{Db, ParticipantStatus, has_left, Participant, Item, Session}
use deliveryways.GroupOrders.Handlers.{
  is_active, is_contributing, is_checked_out, contributes, set_participant,
}

-- A session has an order exactly if it is checked out, and each of its items belongs to somebody who
-- takes part.
abbrev pub is_settled_right : Session → Bool
is_settled_right row =
    if is_checked_out row.status then is_some row.final_order else not (is_some row.final_order)

abbrev pub are_owned : List Participant → List Item → Bool
are_owned ps = every (λ i. contributes ps i.participant_id)

abbrev pub is_wellformed : Option Session → Bool
is_wellformed none = true
is_wellformed (some row) = is_settled_right row && are_owned row.participants row.items

pub record AreWellformed (db : Db) : Type 0 where
  pub each : (s : ℕ) → is_wellformed (db.session s) ≡ true

contributes-add :
    (ps qs : List Participant) (j : ℕ) → contributes ps j ≡ true → contributes (ps ++ qs) j ≡ true
contributes-add [] qs j h = absurd (cc h)
contributes-add (p ∷ ps) qs j h = elim (Bool-cases (p.id == j && is_contributing p.status)) [
  | inl t ↦ ground arith
  | inr f ↦
      let later : contributes ps j ≡ true = ground arith in
      let rest = contributes-add ps qs j later in ground arith
]

contributes-set :
    (ps : List Participant) (id j : ℕ) (status : ParticipantStatus)
    → is_contributing status ≡ true
    → contributes ps j ≡ true
    → contributes (set_participant id status ps) j ≡ true
contributes-set [] id j status k h = absurd (cc h)
contributes-set (p ∷ ps) id j status k h =
    elim (Bool-cases (p.id == j && is_contributing p.status)) [
      | inl t ↦ ground arith
      | inr f ↦
          let later : contributes ps j ≡ true = ground arith in
          let rest = contributes-set ps id j status k later in ground arith
    ]

-- Somebody else's part is not touched.
contributes-other :
    (ps : List Participant) (id j : ℕ) (status : ParticipantStatus)
    → (j == id) ≡ false
    → contributes ps j ≡ true
    → contributes (set_participant id status ps) j ≡ true
contributes-other [] id j status k h = absurd (cc h)
contributes-other (p ∷ ps) id j status k h =
    elim (Bool-cases (p.id == j && is_contributing p.status)) [
      | inl t ↦ ground arith
      | inr f ↦
          let later : contributes ps j ≡ true = ground arith in
          let rest = contributes-other ps id j status k later in ground arith
    ]

pub are_owned-add :
    (ps qs : List Participant) (items : List Item)
    → are_owned ps items ≡ true
    → are_owned (ps ++ qs) items ≡ true
are_owned-add ps qs [] h = refl
are_owned-add ps qs (i ∷ items) h =
    let own : contributes ps i.participant_id ≡ true = ground arith in
    let others : are_owned ps items ≡ true = ground arith in
    let a = contributes-add ps qs i.participant_id own in
    let b = are_owned-add ps qs items others in ground arith

pub are_owned-set :
    (ps : List Participant) (id : ℕ) (status : ParticipantStatus) (items : List Item)
    → is_contributing status ≡ true
    → are_owned ps items ≡ true
    → are_owned (set_participant id status ps) items ≡ true
are_owned-set ps id status [] k h = refl
are_owned-set ps id status (i ∷ items) k h =
    let own : contributes ps i.participant_id ≡ true = ground arith in
    let others : are_owned ps items ≡ true = ground arith in
    let a = contributes-set ps id i.participant_id status k own in
    let b = are_owned-set ps id status items k others in ground arith

pub are_owned-leave :
    (ps : List Participant) (id : ℕ) (items : List Item)
    → are_owned ps items ≡ true
    → are_owned (set_participant id has_left ps) (select (λ i. not (i.participant_id == id)) items)
      ≡ true
are_owned-leave ps id [] h = refl
are_owned-leave ps id (i ∷ items) h =
    let own : contributes ps i.participant_id ≡ true = ground arith in
    let others : are_owned ps items ≡ true = ground arith in
    let rest = are_owned-leave ps id items others in
    elim (Bool-cases (i.participant_id == id)) [
      | inl t ↦ rw t rest
      | inr f ↦ rw f (rw (contributes-other ps id i.participant_id has_left f own) rest)
    ]

pub are_owned-select :
    (ps : List Participant) (f : Item → Bool) (items : List Item)
    → are_owned ps items ≡ true
    → are_owned ps (select f items) ≡ true
are_owned-select ps f [] h = refl
are_owned-select ps f (i ∷ items) h =
    let own : contributes ps i.participant_id ≡ true = ground arith in
    let others : are_owned ps items ≡ true = ground arith in
    let rest = are_owned-select ps f items others in
    elim (Bool-cases (f i)) [ inl t ↦ rw t (rw own rest) | inr n ↦ rw n rest ]

pub are_owned-new :
    (ps : List Participant) (items : List Item) (i : Item)
    → are_owned ps items ≡ true
    → contributes ps i.participant_id ≡ true
    → are_owned ps (items ++ (i ∷ [])) ≡ true
are_owned-new ps [] i h k = rw k refl
are_owned-new ps (x ∷ items) i h k =
    let own : contributes ps x.participant_id ≡ true = ground arith in
    let others : are_owned ps items ≡ true = ground arith in
    rw own (are_owned-new ps items i others k)

-- Whoever is found active takes part.
pub active-contributes :
    (u : ℕ) (ps : List Participant) {p : Participant}
    → find (λ p. p.user_id == u && is_active p.status) ps ≡ some p
    → contributes ps p.id ≡ true
active-contributes u [] e = absurd (cc e)
active-contributes u (q ∷ ps) {p} e = elim (Bool-cases (q.user_id == u && is_active q.status)) [
  | inl t ↦ let same_row : q ≡ p = ground arith in ground arith
  | inr f ↦
      let later : find (λ p. p.user_id == u && is_active p.status) ps ≡ some p = ground arith in
      let rest = active-contributes u ps {p = p} later in ground arith
]
