-- ===== src/Http.antt =====
-- What cmd/noded/server.go and cmd/trackerd/server.go use of net/http: a status and a body.
use aldea.Prelude.{ℕ, Bool, true, false, String, Option, none, some, List, [], ◌∷◌, ◌++◌}
use aldea.Prelude.Text.{utf8}

-- A body that is read: the bytes that arrive, and whether the reading fails after them.
pub record Body : Type 0 where
  pub content : List ℕ
  pub fails : Bool

abbrev pub read_or_none : List ℕ → Bool → Option (List ℕ)
read_or_none content true = none
read_or_none content false = some content

-- `io.ReadAll`
abbrev pub read_all : Body → Option (List ℕ)
read_all b = read_or_none b.content b.fails

pub record Response : Type 0 where
  pub status : ℕ
  pub body : List ℕ

abbrev pub status_ok : ℕ
status_ok = 200

abbrev pub status_bad_request : ℕ
status_bad_request = 400

abbrev pub status_unauthorized : ℕ
status_unauthorized = 401

abbrev pub status_not_found : ℕ
status_not_found = 404

abbrev pub status_conflict : ℕ
status_conflict = 409

abbrev pub status_internal_server_error : ℕ
status_internal_server_error = 500

abbrev pub status_insufficient_storage : ℕ
status_insufficient_storage = 507

-- `http.Error` ends its text with a new line.
abbrev pub http_error : String → ℕ → Response
http_error text status = record { status = status; body = utf8 text ++ 10 ∷ [] }

-- `w.Write` with no status set.
abbrev pub written : List ℕ → Response
written body = record { status = status_ok; body = body }
