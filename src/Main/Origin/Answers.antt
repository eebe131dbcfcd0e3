-- ===== src/Main/Origin/Answers.antt =====
-- The prices in the bodies that clients get.
use go_exercise.Base.{ℕ, ◌≡◌, List, [], ◌∷◌, All, some, if◌then◌else◌}
use go_exercise.Base.Text.{Text}
use go_exercise.Base.Float64.{Float64}
use go_exercise.Cache.Entry.{CacheConfig}
use go_exercise.Pairs.{Unicode}
use go_exercise.Kraken.{Transport, TickerError}
use go_exercise.Ltp.{Quote, get_ltp}
use go_exercise.HttpServer.{Request, Body, World, Server, ltp_body}
use go_exercise.HttpServer.Handlers.{requested_pairs}
use go_exercise.HttpServer.Limits.{sent_code}
use go_exercise.HttpServer.Prices.{answer, ok-IsServed}
use go_exercise.Main.Wiring.{Prices}
use go_exercise.Main.Origin.{served}
use go_exercise.Main.Origin.Current.{service, noting, empty, IsQuoted, get_ltp-IsQuoted}

module _ {fl : Float64} {E : Type 0} (t : Transport fl E) (Other : Type 0) (kraken_url : Text)
    (clock : ℕ → ℕ) (u : Unicode) (z : fl.Num) (config : CacheConfig) where
  -- The service, with an empty cache in memory, after some requests.
  abbrev pub after_requests : List (List Text) → t.State → Prices fl.Num Other × t.State
  after_requests requests w =
      served u (service t Other kraken_url clock u z) z requests
        (empty t Other kraken_url clock u z config w)

  -- The service starts with an empty cache in memory and has answered any requests for
  -- prices, one after another. A client that then gets 200 from the endpoint of the prices has in the body, unless it
  -- cannot be encoded, quotes of which each amount is a price of the symbol of its pair that Kraken
  -- answered with in this call, or that the service had put into the cache, after Kraken had answered
  -- with it, and that was still alive when the cache was read in this call. (What happened is
  -- recorded beside the service; the cache and the network are as they are without.)
  pub answer-IsQuoted :
      (s : Server (Prices fl.Num Other × t.State) fl.Num (TickerError E))
      (requests : List (List Text)) (net : t.State) (r : Request)
      (w : World (Prices fl.Num Other × t.State) (Body fl.Num (TickerError E)))
      → w.state ≡ after_requests requests net
      → sent_code (answer u (service t Other kraken_url clock u z) s z r w).sent ≡ some 200
      → let b = noting t Other kraken_url clock u z in
        let before = served u b z requests ([], empty t Other kraken_url clock u z config net) in
        (quotes : List (Quote fl.Num)) × ((get_ltp u b z (requested_pairs u r) before).0.1
          ≡ (get_ltp u (service t Other kraken_url clock u z) z (requested_pairs u r) w.state).0)
        × ((answer u (service t Other kraken_url clock u z) s z r w).body
            ≡ (if s.encodes (ltp_body quotes) then ltp_body quotes ∷ [] else []))
        × All
            (IsQuoted t Other kraken_url clock u z config before
              (get_ltp u b z (requested_pairs u r) before).0)
            quotes
  answer-IsQuoted s requests net r w same h =
      let (get, (quotes, good, body)) =
        ok-IsServed u (service t Other kraken_url clock u z) s z r w h in
      let (kept, all) =
        get_ltp-IsQuoted t Other kraken_url clock u z config requests (requested_pairs u r) quotes
          net (rw same at good) in
      (quotes, rw same kept, body, all)
