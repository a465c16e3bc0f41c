-- ===== src/Tests/Replays.antt =====
-- The idempotency cache before a handler that counts its requests.
use train_seat_booking_syste.Prelude.{
  ℕ, suc, ◌≡◌, ◌≢◌, refl, String, some, List, [], ◌∷◌, ◌++◌, arith, eq_iff,
}
use train_seat_booking_syste.Prelude.Dict.{lookup, insert}
use train_seat_booking_syste.App.Idempotency.Interleaving.{duplicate_runs_twice}
use train_seat_booking_syste.App.Idempotency.Replay.{repeat_replays}
use train_seat_booking_syste.App.Idempotency.{
  Request, Streamed, Response, cache_key, Server, arrive, run_handler, finish, Reach, here,
}

-- Its answer is the number of requests before, in two chunks.
abbrev count : Request → ℕ → Streamed × ℕ
count r n = (
  record {
    status_code = 201;
    chunks = (n ∷ []) ∷ r.content ∷ [];
    media_type = some "";
    headers = ("x-served", r.path) ∷ [];
  },
  suc n,
)

abbrev post : String → List ℕ → Request
post key content = record { method = "POST"; path = "/bookings"; key = some key; content = content }

abbrev idle : Server ℕ
idle = record { cache = []; app = 0; waiting = []; handled = []; answered = [] }

abbrev k1 : String
k1 = "POST /bookings k1"

-- The first of three requests is arrived and handled; the second has another key and arrives now.
abbrev one_handled : Server ℕ
one_handled =
    arrive count (post "k2" [])
      (run_handler count k1 (post "k1" (7 ∷ [])) [] (arrive count (post "k1" (7 ∷ [])) idle))

abbrev answered_first : Server ℕ
answered_first = finish count k1 (count (post "k1" (7 ∷ [])) 0).0 [] one_handled

-- The third is a replay of the first, whatever its content.
repeat_answered :
    (arrive count (post "k1" (8 ∷ [])) answered_first).answered
    ≡ record {
      status_code = 201;
      body = 0 ∷ 7 ∷ [];
      media_type = some "";
      headers = ("x-served", "/bookings") ∷ [];
    }
      ∷ record {
        status_code = 201;
        body = 0 ∷ 7 ∷ [];
        media_type = some "application/json";
        headers = [];
      }
      ∷ []
unfolding arrive run_handler finish cache_key lookup insert
repeat_answered = refl

other_key : ◌≢◌ {A = String} "POST /bookings k2" k1
other_key = ground (arith, eq_iff "POST /bookings k2" k1)

repeat_replays_example :
    (first : Response) × (second : Response) × (answered_first.answered
      ≡ one_handled.answered ++ first ∷ [])
    × (arrive count (post "k1" (8 ∷ [])) answered_first
        ≡ record answered_first { answered = answered_first.answered ++ second ∷ [] })
    × (second.status_code ≡ first.status_code)
    × (second.body ≡ first.body)
unfolding arrive run_handler cache_key lookup
repeat_replays_example =
    repeat_replays count k1 one_handled answered_first (count (post "k1" (7 ∷ [])) 0).0 [] []
      (post "k1" (8 ∷ [])) refl (other_key, tt) tt here refl

duplicate_runs_twice_example :
    (u : Server ℕ) × Reach count idle u × (u.app ≡ 2) × (u.waiting ≡ []) × (u.handled ≡ [])
unfolding cache_key lookup
duplicate_runs_twice_example = duplicate_runs_twice count (post "k1" []) k1 idle refl refl refl refl
