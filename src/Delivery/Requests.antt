-- ===== src/Delivery/Requests.antt =====
-- `RequestInfoService` of src/fastapi_template/core/shared/delivery/fastapi/request.py.
use fastdjango.Base.{
  ℕ, Bool, List, [], ◌∷◌, ◌++◌, Option, none, some, Text, ◌==◌, nat_eq, strip, if◌then◌else◌,
}

-- What the code reads of a request: a header by its name, the address of the peer, the method, the path,
-- and the credentials that `HTTPBearer` finds.
pub record Request : Type 0 where
  pub header : Text → Option Text
  pub client : Option Text
  pub method : Text
  pub path : Text
  pub credentials : Option Text

pub record RequestInfoServiceSettings : Type 0 where
  pub ip_header : Text
  pub trust_forwarded_ip_header : Bool
  pub user_agent_header : Text

-- `s.split(sep)` for a separator of one character
unfoldable pub split : ℕ → Text → List Text
split sep [] = [] ∷ []
split sep (c ∷ s) = if c == sep then [] ∷ split sep s else extend c (split sep s)
  where
    extend : ℕ → List Text → List Text
    extend c [] = (c ∷ []) ∷ []
    extend c (t ∷ ts) = (c ∷ t) ∷ ts

-- `",".join(addresses)`
unfoldable pub join_commas : List Text → Text
join_commas [] = []
join_commas (t ∷ []) = t
join_commas (t ∷ ts) = t ++ b',' ∷ join_commas ts

abbrev or_empty : Option Text → Text
or_empty none = []
or_empty (some s) = s

-- `ip_address` is `str(ipaddress.ip_address(address))`, or nothing where that raises `ValueError`.
module _ (ip_address : Text → Option Text) (settings : RequestInfoServiceSettings) where
  unfoldable pub get_user_agent : Request → Text
  get_user_agent r = or_empty (r.header settings.user_agent_header)

  abbrev pub cons_if : Option Text → Option (List Text) → Option (List Text)
  cons_if (some a) (some rest) = some (a ∷ rest)
  cons_if _ _ = none

  abbrev pub normalize_unless_empty : Text → Option Text
  normalize_unless_empty [] = none
  normalize_unless_empty (c ∷ s) = ip_address (c ∷ s)

  -- the loop of `_parse_ip_trace`; nothing stands for its early returns
  unfoldable pub parse_addresses : List Text → Option (List Text)
  unfolding strip
  parse_addresses [] = some []
  parse_addresses (raw_address ∷ rest) =
      cons_if (normalize_unless_empty (strip raw_address)) (parse_addresses rest)

  abbrev pub addresses_or_empty : Option (List Text) → List Text
  addresses_or_empty none = []
  addresses_or_empty (some addresses) = addresses

  unfoldable pub parse_ip_trace : Text → List Text
  unfolding split parse_addresses
  parse_ip_trace header_value = addresses_or_empty (parse_addresses (split b',' header_value))

  unfoldable pub get_remote_address : Request → Option Text
  get_remote_address r = elim r.client [
    | none ↦ none
    | some remote_address ↦ ip_address remote_address
  ]

  unfoldable pub trace_or : Option Text → List Text → Option Text
  unfolding join_commas
  trace_or remote [] = remote
  trace_or remote (a ∷ addresses) = some (join_commas (a ∷ addresses))

  unfoldable pub forwarded_or : Option Text → Option Text → Option Text
  unfolding parse_ip_trace trace_or
  forwarded_or remote none = remote
  forwarded_or remote (some header_value) = trace_or remote (parse_ip_trace header_value)

  unfoldable pub get_user_ip_trace : Request → Option Text
  unfolding get_remote_address forwarded_or
  get_user_ip_trace r =
      if settings.trust_forwarded_ip_header
      then forwarded_or (get_remote_address r) (r.header settings.ip_header)
      else get_remote_address r
