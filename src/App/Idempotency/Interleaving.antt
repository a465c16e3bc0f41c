-- ===== src/App/Idempotency/Interleaving.antt =====
-- A duplicate request that overlaps the first.
use train_seat_booking_syste.Prelude.{◌≡◌, refl, String, some, none, [], ◌∷◌}
use train_seat_booking_syste.Prelude.Dict.{lookup}
use train_seat_booking_syste.App.Idempotency.{
  Request, Streamed, cache_key, Server, arrive, run_handler, finish, arrives, runs, finishes, Reach,
  here, next, arrive-miss,
}

-- Where nothing is in flight and the key of a POST is not yet in the cache, a duplicate that arrives
-- before the first is answered is not held back: the middleware can reach a state in which the handler
-- has run both requests, one after the other.
pub duplicate_runs_twice :
    {S : Type 0} (call_next : Request → S → Streamed × S) (r : Request) (k : String) (t : Server S)
    → cache_key r ≡ some k
    → lookup k t.cache ≡ none
    → t.waiting ≡ []
    → t.handled ≡ []
    → (u : Server S) × Reach call_next t u
      × (u.app ≡ (call_next r (call_next r t.app).1).1)
      × (u.waiting ≡ [])
      × (u.handled ≡ [])
unfolding run_handler finish
duplicate_runs_twice call_next r k t e h w d =
    let t1 = arrive call_next r t in
    let t2 = arrive call_next r t1 in
    let e1 = arrive-miss call_next r k t e h in
    let h1 : lookup k t1.cache ≡ none = rw e1 h in
    let e2 = arrive-miss call_next r k t1 e h1 in
    let both : t2.waiting ≡ (k, r) ∷ (k, r) ∷ [] = rw (e2, e1, w) in
    let bare : t2.handled ≡ [] = rw (e2, e1) d in
    let same : t2.app ≡ t.app = rw (e2, e1) in
    let first = (call_next r t2.app).0 in
    let t3 = run_handler call_next k r ((k, r) ∷ []) t2 in
    let one : t3.handled ≡ (k, first) ∷ [] = rw bare in
    let t4 = finish call_next k first [] t3 in
    let t5 = run_handler call_next k r [] t4 in
    let second = (call_next r t4.app).0 in
    let t6 = finish call_next k second [] t5 in
    let reached =
      next
        (next
          (next
            (next (next (next here (arrives r t)) (arrives r t1))
              (runs k r [] ((k, r) ∷ []) t2 both))
            (finishes k first [] [] t3 one))
          (runs k r [] [] t4 refl))
        (finishes k second [] [] t5 refl) in
    (t6, reached, rw same, refl, refl)
