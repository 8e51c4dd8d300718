-- ===== src/Server/Http.antt =====
-- Requests, responses and handlers, with backend/internal/server/http.go. A handler is given the
-- headers that were set on its response writer before it, and the state that it works on.
use dropboy.Base.{ℕ, Text, codes, none, some, []}
use dropboy.Base.Dict.{Dict, lookup, insert}

pub record Request : Type 0 where
  pub method : Text
  pub host : Text
  pub url_path : Text
  pub remote_addr : Text
  pub headers : Dict Text
  pub cookies : Dict Text
  pub query : Dict Text

-- Header.Get, Query().Get: the empty string for what is not there.
unfoldable pub get_text : Text → Dict Text → Text
get_text key m = elim (lookup key m) [ none ↦ [] | some v ↦ v ]

-- The body: what writeJSONError says, what writeJSON encodes, or nothing.
pub data Body (A : Type 0) : Type 0 where
  failure : Text → Body A
  payload : A → Body A
  no_body : Body A

pub record Response (A : Type 0) : Type 0 where
  pub status : ℕ
  pub headers : Dict Text
  pub body : Body A

abbrev pub Handler : Type 0 → Type 0 → Type 0
Handler S A = Request → Dict Text → S → Response A × S

abbrev pub json_headers : Dict Text → Dict Text
json_headers headers =
    insert (codes "Content-Type") (codes "application/json; charset=utf-8") headers

module _ {A : Type 0} where
  unfoldable pub write_json : ℕ → A → Dict Text → Response A
  write_json status body headers = record {
    status = status;
    headers = json_headers headers;
    body = payload body;
  }

  unfoldable pub write_json_error : ℕ → Text → Dict Text → Response A
  write_json_error status msg headers = record {
    status = status;
    headers = json_headers headers;
    body = failure msg;
  }
