-- ===== src/App/Routes/Searching.antt =====
-- backend/slr/app/routes/trips.py: the search, whose parameters come in the query of the URL.
use train_seat_booking_syste.Prelude.{Bool, ◌&&◌, String, ℤ, List, map, leb}
use train_seat_booking_syste.App.Routes.{Reply, respond}
use train_seat_booking_syste.App.Schemas.Requests.{text_length}
use train_seat_booking_syste.App.Schemas.Trips.{TrainOptionOut, option_out}
use train_seat_booking_syste.Domain.Calendar.{Dates}
use train_seat_booking_syste.Ports.{Deps}
use train_seat_booking_syste.UseCases.SearchTrains.Search.{search_trains}
use train_seat_booking_syste.World.{World, Exec, pure, ◌>>=◌}

-- the lengths that `Query` declares
abbrev pub is_search_query : String → String → String → Bool
is_search_query origin dest date =
    leb 1 (text_length origin)
    && leb (text_length origin) 16
    && leb 1 (text_length dest)
    && leb (text_length dest) 16
    && leb 10 (text_length date)
    && leb (text_length date) 10

module _ {F : Type 0} where
  unfoldable pub run_search :
      Deps F → Dates → String → ℤ → String → String → String → Exec F (List (TrainOptionOut F))
  run_search deps dates currency now origin dest date = do
    options ← search_trains deps dates now origin dest date
    pure (map (option_out currency) options)

  -- GET /search
  unfoldable pub search_route :
      Deps F
      → Dates
      → String
      → ℤ
      → String
      → String
      → String
      → World F
      → Reply (List (TrainOptionOut F)) × World F
  search_route deps dates currency now origin dest date =
      respond 200 (is_search_query origin dest date)
        (run_search deps dates currency now origin dest date)
