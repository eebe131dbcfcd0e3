-- ===== src/Examples/Answering.antt =====
-- A price that a client gets after a request for it.
use go_exercise.Base.{ℕ, ◌≡◌, refl, some, List, [], ◌∷◌, All, if◌then◌else◌}
use go_exercise.Base.Text.{Text, codes, text_eq}
use go_exercise.Base.Dict.{find}
use go_exercise.Cache.Entry.{default_cache_config}
use go_exercise.Kraken.{TickerError}
use go_exercise.Ltp.{Quote, get_ltp}
use go_exercise.Pairs.{space_char}
use go_exercise.HttpServer.{Request, Body, World, ltp_body, finish}
use go_exercise.HttpServer.Handlers.{requested_pairs, handle_ltp}
use go_exercise.HttpServer.Limits.{sent_code}
use go_exercise.HttpServer.Prices.{answer}
use go_exercise.Main.Wiring.{service_backend}
use go_exercise.Main.Origin.{recorded, served}
use go_exercise.Main.Origin.Current.{IsQuoted}
use go_exercise.Main.Origin.Answers
use go_exercise.Examples.Symbols.{ascii}
use go_exercise.Examples.Prices.{network}
use go_exercise.Examples.Repeating.{clock, empty_cache, url, again}
use go_exercise.Examples.Serving.{request}
use go_exercise.Examples.Wired.{Store, given, world}

abbrev before : List (List Text)
before = (codes "btc/usd" ∷ []) ∷ []

abbrev upper : Request
upper = request (codes "GET") (codes "/api/v1/ltp") (codes "BTC/USD")

abbrev used : World Store (Body ℕ (TickerError ℕ))
used = record world {
  state = Answers.after_requests network ℕ url clock ascii 0 default_cache_config before 0;
}

asked : requested_pairs ascii upper ≡ codes "BTC/USD" ∷ []
unfolding requested_pairs find text_eq space_char
asked = refl

answered :
    sent_code (answer ascii (service_backend network ℕ url clock) given 0 upper used).sent
    ≡ some 200
unfolding handle_ltp finish text_eq
answered = rw asked (rw again refl)

answer-IsQuoted_example :
    let s = service_backend network ℕ url clock in
    let b = recorded network ℕ url clock in
    let start = served ascii b 0 before ([], (empty_cache, 0)) in
    (quotes : List (Quote ℕ)) × ((get_ltp ascii b 0 (requested_pairs ascii upper) start).0.1
      ≡ (get_ltp ascii s 0 (requested_pairs ascii upper) used.state).0)
    × ((answer ascii s given 0 upper used).body
        ≡ (if given.encodes (ltp_body quotes) then ltp_body quotes ∷ [] else []))
    × All
        (IsQuoted network ℕ url clock ascii 0 default_cache_config start
          (get_ltp ascii b 0 (requested_pairs ascii upper) start).0)
        quotes
answer-IsQuoted_example =
    Answers.answer-IsQuoted network ℕ url clock ascii 0 default_cache_config given before 0 upper
      used refl answered
