-- ===== src/App/Idempotency/Replay.antt =====
-- A repeated POST is answered from the cache.
use train_seat_booking_syste.Prelude.{
  ◌≡◌, ◌≢◌, refl, inl, inr, String, some, List, [], ◌∷◌, ◌++◌, All, arith, eq_iff, Option-cases,
}
use train_seat_booking_syste.Prelude.Dict.{lookup, lookup-insert}
use train_seat_booking_syste.App.Idempotency.{
  Request, Streamed, Response, Entry, answer_of, entry_of, replay, cache_key, Server, arrive,
  run_handler, finish, Step, arrives, runs, finishes, Reach, here, next, arrive-miss, arrive-hit,
}

module _ {A : Type 0} (k : String) where
  -- No request with the key is among those in flight.
  abbrev pub Lacks : List (String × A) → Type 0
  Lacks = All (λ (e : String × A). e.0 ≢ k)

  Lacks-append :
      (xs : List (String × A)) (j : String) (a : A) → j ≢ k → Lacks xs → Lacks (xs ++ (j, a) ∷ [])
  Lacks-append [] j a n h = (n, tt)
  Lacks-append (x ∷ xs) j a n (m, h) = (m, Lacks-append xs j a n h)

  Lacks-parts :
      (before : List (String × A)) (j : String) (a : A) (after : List (String × A))
      → Lacks (before ++ (j, a) ∷ after)
      → (j ≢ k) × Lacks (before ++ after)
  Lacks-parts [] j a after h = h
  Lacks-parts (x ∷ before) j a after (m, h) =
      let (n, rest) = Lacks-parts before j a after h in (n, (m, rest))

module _ {S : Type 0} (call_next : Request → S → Streamed × S) (k : String) (entry : Entry) where
  -- The key is in the cache, and none of its requests is in flight.
  abbrev IsSettled : Server S → Type 0
  IsSettled t = (lookup k t.cache ≡ some entry) × Lacks k t.waiting × Lacks k t.handled

  arrive-IsSettled : (r : Request) (t : Server S) → IsSettled t → IsSettled (arrive call_next r t)
  arrive-IsSettled r t (e, w, h) = elim (Option-cases (cache_key r)) [
    | inl n ↦ unfold arrive in rw n (e, w, h)
    | inr (j, n) ↦ elim (Option-cases (lookup j t.cache)) [
      | inr (x, f) ↦ rw (arrive-hit call_next r j x t n f) (e, w, h)
      | inl f ↦
          let other : j ≢ k = λ same. absurd (ground arith) in
          rw (arrive-miss call_next r j t n f) (e, Lacks-append k t.waiting j r other w, h)
    ]
  ]

  Step-IsSettled : (t u : Server S) → Step call_next t u → IsSettled t → IsSettled u
  unfolding run_handler finish
  Step-IsSettled _ _ (arrives r t) s = arrive-IsSettled r t s
  Step-IsSettled _ _ (runs j r before after t at) (e, w, h) =
      let (other, rest) = Lacks-parts k before j r after (rw at at w) in
      (e, rest, Lacks-append k t.handled j (call_next r t.app).0 other h)
  Step-IsSettled _ _ (finishes j reply before after t at) (e, w, h) =
      let (other, rest) = Lacks-parts k before j reply after (rw at at h) in
      (ground (arith, eq_iff j k, lookup-insert j k (entry_of reply) t.cache), w, rest)

  Reach-IsSettled : (t u : Server S) → Reach call_next t u → IsSettled t → IsSettled u
  Reach-IsSettled t _ here s = s
  Reach-IsSettled t v (next {u} path step) s = Step-IsSettled u v step (Reach-IsSettled t u path s)

-- Let a request with a cache key be answered while no other request with that key is in flight. From
-- then on, whatever requests arrive, run and finish in between and in any order, a request with that
-- key is answered as soon as it arrives, with the status and the body of the first answer, and
-- nothing else changes: the handler does not run again.
pub repeat_replays :
    {S : Type 0} (call_next : Request → S → Streamed × S) (k : String) (t u : Server S)
    (reply : Streamed) (before after : List (String × Streamed)) (again : Request)
    → t.handled ≡ before ++ (k, reply) ∷ after
    → Lacks k t.waiting
    → Lacks k (before ++ after)
    → Reach call_next (finish call_next k reply (before ++ after) t) u
    → cache_key again ≡ some k
    → (first : Response) × (second : Response) × ((finish call_next k reply
          (before ++ after)
          t).answered
        ≡ t.answered ++ first ∷ [])
      × (arrive call_next again u ≡ record u { answered = u.answered ++ second ∷ [] })
      × (second.status_code ≡ first.status_code)
      × (second.body ≡ first.body)
unfolding finish
repeat_replays call_next k t u reply before after again at w h path e =
    let entry = entry_of reply in
    let t1 = finish call_next k reply (before ++ after) t in
    let stored : lookup k t1.cache ≡ some entry =
      ground (arith, eq_iff k k, lookup-insert k k entry t.cache) in
    let (found, _, _) = Reach-IsSettled call_next k entry t1 u path (stored, w, h) in
    (answer_of reply, replay entry, refl, arrive-hit call_next again k entry u e found, refl, refl)
