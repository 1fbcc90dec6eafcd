-- ===== src/Stack/Sessions.antt =====
-- How the functions of src/tQuicStack.cc find the stream of a request, and what is found when a
-- stream has changed. The streams are of any type.
use nginx_quic_stack.Base.{
  ℕ, ◌≡◌, refl, Bool, true, false, ◌&&◌, List, [], ◌∷◌, Option, none, some, if◌then◌else◌, ◌==◌,
  is_nil, Bool-cases, Option-cases, inl, inr, sym, ◌∙◌, arith,
}
use nginx_quic_stack.Base.Bytes.{Bytes, same, eq_of_same, same_self}

-- Quiche's active streams, under their numbers.
pub record Session (A : Type 0) : Type 0 where
  pub connection_id : Bytes
  pub streams : ℕ → Option A

pub record RequestId : Type 0 where
  pub connection_data : Bytes
  pub stream_id : ℕ

abbrev pub is_same : RequestId → RequestId → Bool
is_same i j = same i.connection_data j.connection_data && (j.stream_id == i.stream_id)

module _ {A : Type 0} where
  unfoldable pub find_session : Bytes → List (Session A) → Option (Session A)
  find_session cid [] = none
  find_session cid (s ∷ sessions) =
      if same s.connection_id cid then some s else find_session cid sessions

  unfoldable pub get_session : RequestId → List (Session A) → Option (Session A)
  unfolding find_session
  get_session id sessions =
      if is_nil id.connection_data then none else find_session id.connection_data sessions

  abbrev pub stream_of : ℕ → Option (Session A) → Option A
  stream_of sid none = none
  stream_of sid (some s) = s.streams sid

  unfoldable pub get_stream : RequestId → List (Session A) → Option A
  unfolding get_session
  get_stream id sessions = stream_of id.stream_id (get_session id sessions)

  -- The sessions when the stream that was found has another body.
  abbrev with_stream : ℕ → A → Session A → Session A
  with_stream sid b s = record s { streams = λ k. if k == sid then some b else s.streams k }

  unfoldable pub store_stream : RequestId → A → List (Session A) → List (Session A)
  store_stream id b [] = []
  store_stream id b (s ∷ sessions) =
      if same s.connection_id id.connection_data
      then with_stream id.stream_id b s ∷ sessions
      else s ∷ store_stream id b sessions

  find_session-store_stream :
      (id other : RequestId) (b : A) (sessions : List (Session A))
      → stream_of other.stream_id (find_session other.connection_data (store_stream id b sessions))
        ≡ (if is_same id other
            then elim (find_session other.connection_data sessions) as (λ _. Option A) [
              | none ↦ none
              | some s ↦ some b
            ]
            else stream_of other.stream_id (find_session other.connection_data sessions))
  unfolding find_session store_stream
  find_session-store_stream id other b [] = ground arith
  find_session-store_stream id other b (s ∷ sessions) = ground (
    arith,
    find_session-store_stream id other b sessions,
    eq_of_same s.connection_id id.connection_data,
    eq_of_same s.connection_id other.connection_data,
    eq_of_same id.connection_data other.connection_data,
    same_self s.connection_id,
    same_self id.connection_data,
  )

  found_stays :
      (o : Option (Session A)) (sid : ℕ) (b c : A)
      → stream_of sid o ≡ some b
      → (elim o as (λ _. Option A) [ none ↦ none | some s ↦ some c ]) ≡ some c
  found_stays none sid b c h = cc
  found_stays (some s) sid b c h = refl

  pub get_stream-store_stream :
      (id : RequestId) (b c : A) (sessions : List (Session A))
      → get_stream id sessions ≡ some b
      → get_stream id (store_stream id c sessions) ≡ some c
  unfolding get_stream get_session
  get_stream-store_stream id b c sessions h = ground (
    arith,
    find_session-store_stream id id c sessions,
    same_self id.connection_data,
    found_stays (find_session id.connection_data sessions) id.stream_id b c,
    h,
  )

  pub get_stream_other :
      (id other : RequestId) (c : A) (sessions : List (Session A))
      → is_same id other ≡ false
      → get_stream other (store_stream id c sessions) ≡ get_stream other sessions
  unfolding get_stream get_session
  get_stream_other id other c sessions h =
      ground (arith, find_session-store_stream id other c sessions, h)

  -- A call of a stream's method through its request, with the result where none is found.
  abbrev stored :
      {R : Type 0} → RequestId → List (Session A) → R → Option (A × R) → List (Session A) × R
  stored id sessions missing none = (sessions, missing)
  stored id sessions missing (some (s, r)) = (store_stream id s sessions, r)

  abbrev called : {R : Type 0} → (A → A × R) → Option A → Option (A × R)
  called f none = none
  called f (some s) = some (f s)

  unfoldable pub on_stream :
      {R : Type 0} → RequestId → (A → A × R) → R → List (Session A) → List (Session A) × R
  unfolding get_stream store_stream
  on_stream id f missing sessions = stored id sessions missing (called f (get_stream id sessions))

  get_stream_same :
      (id other : RequestId) (sessions : List (Session A))
      → is_same id other ≡ true
      → get_stream id sessions ≡ get_stream other sessions
  unfolding get_stream get_session
  get_stream_same id other sessions h =
      let connection = eq_of_same id.connection_data other.connection_data (ground (arith, h)) in
      let number : id.stream_id ≡ other.stream_id = ground (arith, h) in
      rw (connection, number) refl

  -- A call through one request changes the stream of that request alone.
  pub get_stream-on_stream :
      {R : Type 0}
      → (id other : RequestId) → (f : A → A × R) → (missing : R) → (sessions : List (Session A))
      → (s : A) → get_stream other sessions ≡ some s
      → get_stream other (on_stream id f missing sessions).0
        ≡ some (if is_same id other then (f s).0 else s)
  unfolding on_stream
  get_stream-on_stream id other f missing sessions s found = elim (Bool-cases (is_same id other)) [
    | inl equal ↦
        let here : get_stream id sessions ≡ some s =
          get_stream_same id other sessions equal ∙ found in
        rw (equal, here)
          (sym (get_stream_same id other (store_stream id (f s).0 sessions) equal)
            ∙ get_stream-store_stream id s (f s).0 sessions here)
    | inr differ ↦ elim (Option-cases (get_stream id sessions)) [
      | inl nothing ↦ rw (differ, nothing) found
      | inr (t, there) ↦
          rw (differ, there) (get_stream_other id other (f t).0 sessions differ ∙ found)
    ]
  ]
