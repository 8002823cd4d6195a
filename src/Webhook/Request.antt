-- ===== src/Webhook/Request.antt =====
-- What a request to the webhook carries (pkg/notify/http.go), and how its authentication is described
-- (cmd/svchealthcheck/webhookflags.go). The canonical form of a header's name and base64 are the
-- standard library's: arguments.
use couchbase_health_observe.Prelude.{
  not, ◌&&◌, ◌≡◌, refl, List, [], ◌∷◌, ◌++◌, Option, none, some, Str, bytes, str_eq, is_nil,
  is_some, length, ◌==◌, if◌then◌else◌, arith,
}
use couchbase_health_observe.Prelude.Dict.{Dict, lookup, insert, lookup-insert}
use couchbase_health_observe.Prelude.Decimal.{decimal}
use couchbase_health_observe.Webhook.Headers.{Header}

-- `CanonicalMIMEHeaderKey`, and base64.
pub record Encoding : Type 0 where
  pub canonical : Str → Str
  pub base64 : Str → Str

-- `Header.Set` of each, in turn.
unfoldable pub set_headers : Encoding → Dict Str → List Header → Dict Str
set_headers E m [] = m
set_headers E m (h ∷ headers) = set_headers E (insert (E.canonical h.key) h.value m) headers

unfoldable pub basic_auth : Encoding → Str → Str → Str
basic_auth E user pass = bytes "Basic " ++ E.base64 (user ++ (b':' ∷ pass))

unfoldable pub request_headers : Encoding → Str → Str → List Header → Dict Str
unfolding set_headers basic_auth
request_headers E user pass headers =
    let m =
      set_headers E (insert (E.canonical (bytes "Content-Type")) (bytes "application/json") [])
        headers in
    if not (is_nil user)
    then insert (E.canonical (bytes "Authorization")) (basic_auth E user pass) m
    else m

unfoldable pub auth_summary : Str → List Header → Str
unfolding decimal
auth_summary user headers =
    let n = length headers in
    let unit = if n == 1 then bytes "header" else bytes "headers" in
    if is_nil user && n == 0
    then bytes "none"
    else if not (is_nil user) && n == 0
    then bytes "basic"
    else if is_nil user
    then decimal n ++ (b' ' ∷ unit)
    else bytes "basic+" ++ (decimal n ++ (b' ' ∷ unit))

-- The value of the last header whose name has a canonical form.
unfoldable pub last_value : Encoding → Str → List Header → Option Str
last_value E k [] = none
last_value E k (h ∷ headers) =
    let later = last_value E k headers in
    if is_some later then later else if str_eq (E.canonical h.key) k then some h.value else none

abbrev pub or_else : Option Str → Option Str → Option Str
or_else none o = o
or_else (some v) o = some v

lookup-set_headers :
    (E : Encoding) (k : Str) (m : Dict Str) (headers : List Header)
    → lookup k (set_headers E m headers) ≡ or_else (last_value E k headers) (lookup k m)
unfolding set_headers last_value
lookup-set_headers E k m [] = refl
lookup-set_headers E k m (h ∷ headers) = ground (
  arith,
  lookup-insert (E.canonical h.key) k h.value m,
  lookup-set_headers E k (insert (E.canonical h.key) h.value m) headers,
)

-- Under each name a request carries at most one value: that of the last configured header with the
-- name; without one, the content type is JSON and nothing else is carried. A user puts basic
-- authentication in place of any configured authorization.
pub request_headers-last :
    (E : Encoding) (user pass : Str) (headers : List Header) (k : Str)
    → lookup k (request_headers E user pass headers) ≡ (
        if not (is_nil user) && str_eq (E.canonical (bytes "Authorization")) k
        then some (basic_auth E user pass)
        else or_else (last_value E k headers) (
            if str_eq (E.canonical (bytes "Content-Type")) k
            then some (bytes "application/json")
            else none))
unfolding request_headers lookup
request_headers-last E user pass headers k =
    let json = insert (E.canonical (bytes "Content-Type")) (bytes "application/json") [] in
    ground (
      arith,
      lookup-insert (E.canonical (bytes "Authorization")) k (basic_auth E user pass)
          (set_headers E json headers),
      lookup-set_headers E k json headers,
      lookup-insert (E.canonical (bytes "Content-Type")) k (bytes "application/json") [],
    )

-- The description tells nothing but whether there is a user, and how many headers there are.
pub auth_summary-discreet :
    (user user' : Str) (headers headers' : List Header)
    → is_nil user ≡ is_nil user'
    → length headers ≡ length headers'
    → auth_summary user headers ≡ auth_summary user' headers'
unfolding auth_summary
auth_summary-discreet user user' headers headers' same count = ground arith
