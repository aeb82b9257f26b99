-- ===== src/Delivery/Traces.antt =====
-- The client address: what `get_user_ip_trace` lets through.
use fastdjango.Base.{
  ◌≡◌, refl, Bool, true, false, List, [], ◌∷◌, Option, none, some, Text, All, arith, strip,
  if◌then◌else◌,
}
use fastdjango.Delivery.Requests.{
  Request, RequestInfoServiceSettings, split, normalize_unless_empty, cons_if, trace_or,
  forwarded_or, addresses_or_empty, join_commas, parse_addresses, parse_ip_trace,
  get_remote_address, get_user_ip_trace,
}

module _ (ip_address : Text → Option Text) (settings : RequestInfoServiceSettings) where
  -- This text is what the package prints for some address.
  abbrev pub IsAddress : Text → Type 0
  IsAddress t = (raw : Text) × (ip_address raw ≡ some t)

  AreAddresses : Option (List Text) → Type 0
  AreAddresses none = Unit
  AreAddresses (some addresses) = All IsAddress addresses

  normalized_IsAddress :
      (s t : Text) → normalize_unless_empty ip_address settings s ≡ some t → IsAddress t
  normalized_IsAddress [] t h = ground arith
  normalized_IsAddress (c ∷ s) t h = (c ∷ s, h)

  cons_if-AreAddresses :
      (s : Text) (normalized : Option Text) (others : Option (List Text))
      → normalize_unless_empty ip_address settings s ≡ normalized
      → AreAddresses others
      → AreAddresses (cons_if ip_address settings normalized others)
  unfolding AreAddresses
  cons_if-AreAddresses s none others e h = tt
  cons_if-AreAddresses s (some a) none e h = tt
  cons_if-AreAddresses s (some a) (some rest) e h = (normalized_IsAddress s a e, h)

  parse_addresses-AreAddresses :
      (raws : List Text) → AreAddresses (parse_addresses ip_address settings raws)
  unfolding parse_addresses AreAddresses
  parse_addresses-AreAddresses [] = tt
  parse_addresses-AreAddresses (raw ∷ raws) =
      cons_if-AreAddresses (strip raw) (normalize_unless_empty ip_address settings (strip raw))
        (parse_addresses ip_address settings raws) refl (parse_addresses-AreAddresses raws)

  -- A trace: one address or more, each as the package prints it, with commas between them.
  abbrev pub IsTrace : Text → Type 0
  IsTrace t =
      (a : Text) × (rest : List Text) × (t ≡ join_commas (a ∷ rest)) × All IsAddress (a ∷ rest)

  abbrev pub IsTraceOrNone : Option Text → Type 0
  IsTraceOrNone none = Unit
  IsTraceOrNone (some t) = IsTrace t

  address_IsTrace :
      (raw : Text) (printed : Option Text) → ip_address raw ≡ printed → IsTraceOrNone printed
  unfolding join_commas
  address_IsTrace raw none e = tt
  address_IsTrace raw (some t) e = (t, [], refl, ((raw, e), tt))

  client_IsTrace :
      (r : Request) (client : Option Text)
      → IsTraceOrNone (get_remote_address ip_address settings (record r { client = client }))
  unfolding get_remote_address
  client_IsTrace r none = tt
  client_IsTrace r (some raw) = address_IsTrace raw (ip_address raw) refl

  forwarded_IsTrace :
      (remote : Option Text) (parsed : Option (List Text))
      → IsTraceOrNone remote
      → AreAddresses parsed
      → IsTraceOrNone
          (trace_or ip_address settings remote (addresses_or_empty ip_address settings parsed))
  unfolding AreAddresses trace_or
  forwarded_IsTrace remote none h p = h
  forwarded_IsTrace remote (some []) h p = h
  forwarded_IsTrace remote (some (a ∷ rest)) h p = (a, rest, refl, p)

  header_IsTrace :
      (remote header : Option Text)
      → IsTraceOrNone remote
      → IsTraceOrNone (forwarded_or ip_address settings remote header)
  unfolding parse_ip_trace forwarded_or
  header_IsTrace remote none h = h
  header_IsTrace remote (some value) h =
      forwarded_IsTrace remote (parse_addresses ip_address settings (split b',' value)) h
        (parse_addresses-AreAddresses (split b',' value))

  either_IsTrace :
      (b : Bool) (x y : Option Text)
      → IsTraceOrNone x
      → IsTraceOrNone y
      → IsTraceOrNone (if b then x else y)
  either_IsTrace true x y h k = h
  either_IsTrace false x y h k = k

  -- Whatever a client writes into the forwarding header, and whether that header is trusted or not, a
  -- trace that comes out is a list of addresses in the form that `ipaddress` prints, with commas between
  -- them, and not an empty one.
  pub get_user_ip_trace-IsTrace :
      (r : Request) → IsTraceOrNone (get_user_ip_trace ip_address settings r)
  unfolding get_user_ip_trace
  get_user_ip_trace-IsTrace r =
      either_IsTrace settings.trust_forwarded_ip_header
        (forwarded_or ip_address settings (get_remote_address ip_address settings r)
          (r.header settings.ip_header))
        (get_remote_address ip_address settings r)
        (header_IsTrace (get_remote_address ip_address settings r) (r.header settings.ip_header)
          (client_IsTrace r r.client))
        (client_IsTrace r r.client)
