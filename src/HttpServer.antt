-- ===== src/HttpServer.antt =====
-- internal/httpserver/server.go and internal/resp/response.go
--
-- A handler takes a request and the world, and returns the world and whether it panicked. What
-- net/http does with a `ResponseWriter` is written out: the first `WriteHeader` fixes the status
-- and the headers, later ones change nothing, and a handler that writes none gets 200.
pub mod Handlers
pub mod Middleware
pub mod Chain
pub mod Limits
pub mod Recording
pub mod Prices
use go_exercise.Base.{
  ℕ, ◌+◌, Bool, true, false, Option, none, some, List, [], ◌∷◌, ◌++◌, if◌then◌else◌,
}
use go_exercise.Base.Text.{Text, codes, text_eq}
use go_exercise.Base.Dict.{Dict, find, put}
use go_exercise.Base.Result.{Result}
use go_exercise.RateLimit.Limiter.{RateLimiter, Readings}
use go_exercise.RateLimit.Limiter.Addresses.{Origin}
use go_exercise.Health
use go_exercise.Health.{Check, add_check}
use go_exercise.Ltp.{Quote, Message, LtpError}

-- What the handlers read of a request. `query` is what `r.URL.Query()` parses, `readings` are the
-- clock's while the request is counted.
pub record Request : Type 0 where
  pub method : Text
  pub path : Text
  pub url : Text
  pub query : Dict Text
  pub origin : Origin
  pub readings : Readings

pub data ErrorMessage : Type 0 where
  plain : Text → ErrorMessage
  of_service : Message → ErrorMessage  -- herr.Error()

-- What is written to a response; a value that is encoded stands for its JSON.
pub data Body (Num E : Type 0) : Type 0 where
  error_body : ErrorMessage → Body Num E  -- resp.Error
  ltp_body : List (Quote Num) → Body Num E
  health_body : Health.Response E → Body Num E
  text_body : Text → Body Num E
  swagger_html : Body Num E

-- `sent` is the status with the headers as they were when it was written. `recorded` is the
-- `statusCode` of the `responseWriter` around it, while there is one.
pub record ResponseWriter (B : Type 0) : Type 0 where
  pub header : Dict Text
  pub sent : Option (ℕ × Dict Text)
  pub body : List B
  pub recorded : Option ℕ

-- What a handler can change. `http_requests` has the labels of each increment of the counter.
pub record World (S B : Type 0) : Type 0 where
  pub limiter : RateLimiter
  pub state : S
  pub http_requests : List (Text × Text × ℕ)
  pub access_log : List (Text × Text)
  pub response : ResponseWriter B

pub data Flow : Type 0 where
  returned : Flow
  panicked : Flow

abbrev pub Handler : Type 0 → Type 0 → Type 0
Handler S B = Request → World S B → World S B × Flow

-- A handler that is not the server's own: it has the writer, and what the service stands on.
abbrev pub Foreign : Type 0 → Type 0 → Type 0
Foreign S B = Request → S → ResponseWriter B → S × ResponseWriter B × Flow

abbrev pub foreign : {S B : Type 0} → Foreign S B → Handler S B
foreign f r w =
    let (state, response, flow) = f r w.state w.response in
    (record w { state = state; response = response }, flow)

-- `http.HandlerFunc` of code that does not panic.
abbrev pub quiet : {S B : Type 0} → (Request → World S B → World S B) → Handler S B
quiet f r w = (f r w, returned)

-- The server, and what is not its own: the service, whether a value can be encoded, the file
-- system, the handler of the metrics, and what the mux does with a path that it does not have.
pub record Server (S Num E : Type 0) : Type 0 where
  pub svc : List Text → S → S × Result (LtpError E) (List (Quote Num))
  pub checks : List (Check S E)
  pub encodes : Body Num E → Bool
  pub openapi_missing : S → Bool
  pub serve_file : Text → Foreign S (Body Num E)
  pub prometheus : Foreign S (Body Num E)
  pub not_routed : Foreign S (Body Num E)

unfoldable pub add_health_check : {S Num E : Type 0} → Server S Num E → Check S E → Server S Num E
unfolding add_check
add_health_check s check = record s { checks = add_check s.checks check }

-- The first status that is written, with the headers of that moment.
unfoldable pub first_status : Option (ℕ × Dict Text) → ℕ → Dict Text → Option (ℕ × Dict Text)
first_status (some before) code header = some before
first_status none code header = some (code, header)

-- `responseWriter.WriteHeader`, where there is one.
unfoldable pub record_status : Option ℕ → ℕ → Option ℕ
record_status none code = none
record_status (some before) code = some code

module _ {B : Type 0} where
  abbrev pub new_writer : ResponseWriter B
  new_writer = record { header = []; sent = none; body = []; recorded = none }

  unfoldable pub set_header : Text → Text → ResponseWriter B → ResponseWriter B
  set_header k v w = record w { header = put k v w.header }

  unfoldable pub send : ℕ → ResponseWriter B → ResponseWriter B
  unfolding first_status
  send code w = record w { sent = first_status w.sent code w.header }

  unfoldable pub write_header : ℕ → ResponseWriter B → ResponseWriter B
  unfolding record_status send
  write_header code w = send code (record w { recorded = record_status w.recorded code })

  -- `Write` sends 200 if no status was written; the wrapper does not see that.
  unfoldable pub write : B → ResponseWriter B → ResponseWriter B
  unfolding send
  write b w = let w' = send 200 w in record w' { body = w'.body ++ b ∷ [] }

  -- `json.NewEncoder(w).Encode`: a value that cannot be encoded writes nothing.
  unfoldable pub encode : (B → Bool) → B → ResponseWriter B → ResponseWriter B
  unfolding write
  encode encodes b w = if encodes b then write b w else w

  -- `resp.JSON`
  unfoldable pub json : (B → Bool) → ℕ → B → ResponseWriter B → ResponseWriter B
  unfolding set_header write_header encode
  json encodes code b w =
      encode encodes b
        (write_header code (set_header (codes "Content-Type") (codes "application/json") w))

  -- `http.Error`
  unfoldable pub http_error : ℕ → B → ResponseWriter B → ResponseWriter B
  unfolding set_header write_header write
  http_error code b w = write b (
      write_header code (
        set_header (codes "X-Content-Type-Options") (codes "nosniff")
          (set_header (codes "Content-Type") (codes "text/plain; charset=utf-8") w)))

  -- When the handler has returned.
  unfoldable pub finish : ResponseWriter B → ResponseWriter B
  unfolding send
  finish w = send 200 w

abbrev pub respond : {S B : Type 0} → (ResponseWriter B → ResponseWriter B) → World S B → World S B
respond f w = record w { response = f w.response }

abbrev pub is_get : Request → Bool
is_get r = text_eq r.method (codes "GET")
