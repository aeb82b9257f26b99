-- ===== src/Updater/Registry.antt =====
-- The registries' answers in management/dependency_updater/update_container_image_versions.py and http.py. The
-- network is a parameter: `open_url`, which follows redirects by itself, answers a request, which may depend on the requests before it, with
-- nothing where `urlopen` or `json.load` raises one of the exceptions that `_json_response` catches.
pub mod Requests
use fastdjango.Base.{
  ℕ, suc, zero, Bool, true, false, not, ◌&&◌, List, [], ◌∷◌, ◌++◌, Option, none, some, Text, codes,
  ◌==◌, nat_eq, text_eq, is_space, starts_with, if◌then◌else◌,
}
use fastdjango.Outcome.{Outcome, Exec, pure, lift, ◌>>=◌}
use fastdjango.Updater.Images.{container_registry_and_path}
use fastdjango.Updater.Choice.{latest_of}

-- What `json.load` returns.
mutual
  pub data Json : Type 0 where
    null number : Json
    boolean : Bool → Json
    str : Text → Json
    array : Items → Json
    object : Fields → Json

  pub data Items : Type 0 where
    no_items : Items
    item : Json → Items → Items

  pub data Fields : Type 0 where
    no_fields : Fields
    field : Text → Json → Fields → Fields

pub record JsonResponse : Type 0 where
  pub payload : Json
  pub link : Option Text

-- `payload.get(key)`, which is `None` where there is no such key
unfoldable pub get : Text → Fields → Json
get key no_fields = null
get key (field k value fields) = let rest = get key fields in if k == key then value else rest

-- the texts of a list
unfoldable pub texts_of : Items → List Text
texts_of no_items = []
texts_of (item (str s) items) = s ∷ texts_of items
texts_of (item _ items) = texts_of items

-- the texts under `name` in the dictionaries of a list
unfoldable pub names_of : Items → List Text
unfolding get
names_of no_items = []
names_of (item (object fields) items) = elim (get (codes "name") fields) [
  | str s ↦ s ∷ names_of items
  | _ ↦ names_of items
]
names_of (item _ items) = names_of items

unfoldable pub tag_names_from_docker_hub_payload : Fields → List Text
unfolding get names_of
tag_names_from_docker_hub_payload payload = elim (get (codes "results") payload) [
  | array items ↦ names_of items
  | _ ↦ []
]

unfoldable pub tag_names_from_registry_payload : Fields → List Text
unfolding get texts_of
tag_names_from_registry_payload payload = elim (get (codes "tags") payload) [
  | array items ↦ texts_of items
  | _ ↦ []
]

-- a text that is not empty
abbrev pub filled : Json → Option Text
filled (str (c ∷ s)) = some (c ∷ s)
filled _ = none

unfoldable pub skip_spaces : Text → Text
unfolding is_space
skip_spaces [] = []
skip_spaces (c ∷ s) = let rest = skip_spaces s in if is_space c then rest else c ∷ s

-- `[^>]+>;\s*rel="next"` after the opening bracket, with what has been read of the address
unfoldable pub bracketed : Text → Option Text
unfolding starts_with skip_spaces
bracketed [] = none
bracketed (c ∷ s) =
    let rest = bracketed s in
    if c == b'>'
    then (elim s [
      | [] ↦ none
      | d ∷ t ↦
          if d == b';' && starts_with (skip_spaces t) (codes "rel=\"next\"") then some [] else none
    ])
    else elim rest [ none ↦ none | some url ↦ some (c ∷ url) ]

-- `_GHCR_NEXT_LINK_RE.search(link)`
unfoldable pub search_next : Text → Option Text
unfolding bracketed
search_next [] = none
search_next (c ∷ s) =
    let rest = search_next s in
    let found = (if c == b'<' then bracketed s else none) in
    elim found [ some (d ∷ url) ↦ some (d ∷ url) | _ ↦ rest ]

unfoldable pub next_ghcr_url : Option Text → Option Text
unfolding search_next starts_with
next_ghcr_url none = none
next_ghcr_url (some link) = elim (search_next link) [
  | none ↦ none
  | some url ↦
      if starts_with url (codes "/") then some (codes "https://ghcr.io" ++ url) else some url
]

-- The requests so far, the last one first.
abbrev pub Requests : Type 0
Requests = List Text

module _ (scheme : Text → Outcome Text)
    (open_url : Requests → Text → Option Text → Outcome (Option JsonResponse)) where
  -- the rest of `_json_response`, with the URL's scheme
  abbrev request_over : Text → Text → Option Text → Exec Requests (Option JsonResponse)
  request_over url_scheme url authorization = elim (url_scheme == codes "https") [
    | false ↦ pure none
    | true ↦ λ requests. (open_url requests url authorization, url ∷ requests)
  ]

  -- `_json_response`, with the authorization header; `urlparse` may raise
  unfoldable pub json_response : Text → Option Text → Exec Requests (Option JsonResponse)
  json_response url authorization = do
    url_scheme ← lift (scheme url)
    request_over url_scheme url authorization

  -- what `isinstance(response.payload, dict)` lets through
  abbrev pub fields_of : Option JsonResponse → Option Fields
  fields_of none = none
  fields_of (some response) = elim response.payload [ object fields ↦ some fields | _ ↦ none ]

  abbrev pub link_of : Option JsonResponse → Option Text
  link_of none = none
  link_of (some response) = response.link

  -- one round of either loop, for its page and the next address, and the rounds after it
  abbrev pub and_then :
      List Text → Option Text → (Text → Exec Requests (List Text)) → Exec Requests (List Text)
  and_then names none more = pure names
  and_then names (some next_url) more = do others ← more next_url; pure (names ++ others)

  -- the rest of a round of `_docker_hub_tags`, once there is a payload
  unfoldable pub docker_hub_page :
      (Text → Exec Requests (List Text)) → Option Fields → Exec Requests (List Text)
  unfolding tag_names_from_docker_hub_payload get
  docker_hub_page more none = pure []
  docker_hub_page more (some payload) =
      and_then (tag_names_from_docker_hub_payload payload) (filled (get (codes "next") payload))
        more

  -- the loop of `_docker_hub_tags`, for the number of rounds that are left
  unfoldable pub docker_hub_pages : ℕ → Text → Exec Requests (List Text)
  unfolding json_response docker_hub_page
  docker_hub_pages zero url = pure []
  docker_hub_pages (suc rounds) url = do
    response ← json_response url none
    docker_hub_page (docker_hub_pages rounds) (fields_of response)

  abbrev pub max_registry_pages : ℕ
  max_registry_pages = 20

  unfoldable pub docker_hub_tags : Text → Exec Requests (List Text)
  unfolding docker_hub_pages
  docker_hub_tags repository_path = docker_hub_pages max_registry_pages (
      codes "https://hub.docker.com/v2/repositories/"
      ++ repository_path
      ++ codes "/tags?page_size=100")

  -- the rest of a round of `_ghcr_tags`
  unfoldable pub ghcr_page :
      (Text → Exec Requests (List Text)) → Option Text → Option Fields → Exec Requests (List Text)
  unfolding tag_names_from_registry_payload next_ghcr_url
  ghcr_page more link none = pure []
  ghcr_page more link (some payload) =
      and_then (tag_names_from_registry_payload payload) (next_ghcr_url link) more

  -- the loop of `_ghcr_tags`
  unfoldable pub ghcr_pages : Text → ℕ → Text → Exec Requests (List Text)
  unfolding json_response ghcr_page
  ghcr_pages token zero url = pure []
  ghcr_pages token (suc rounds) url = do
    response ← json_response url (some (codes "Bearer " ++ token))
    ghcr_page (ghcr_pages token rounds) (link_of response) (fields_of response)

  module _ (urlencode : List (Text × Text) → Text) where
    abbrev token_of : Option Fields → Option Text
    unfolding get
    token_of none = none
    token_of (some payload) = elim (get (codes "token") payload) [
      | str token ↦ some token
      | _ ↦ none
    ]

    unfoldable pub ghcr_token : Text → Exec Requests (Option Text)
    unfolding json_response token_of
    ghcr_token repository_path = do
      response ←
          json_response
            (codes "https://ghcr.io/token?"
              ++ urlencode (
                  (codes "service", codes "ghcr.io")
                  ∷ (codes "scope", codes "repository:" ++ repository_path ++ codes ":pull")
                  ∷ []))
            none
      pure (token_of (fields_of response))

    unfoldable pub pages_with : Text → Option Text → Exec Requests (List Text)
    unfolding ghcr_pages
    pages_with repository_path none = pure []
    pages_with repository_path (some token) =
        ghcr_pages token max_registry_pages
          (codes "https://ghcr.io/v2/" ++ repository_path ++ codes "/tags/list?n=1000")

    unfoldable pub ghcr_tags : Text → Exec Requests (List Text)
    unfolding ghcr_token pages_with
    ghcr_tags repository_path = do
      token ← ghcr_token repository_path
      pages_with repository_path token

    unfoldable pub container_registry_tags : Text → Exec Requests (List Text)
    unfolding container_registry_and_path docker_hub_tags ghcr_tags
    container_registry_tags repository =
        let place = container_registry_and_path repository in
        elim (place.0 == codes "docker.io") [
          | true ↦ docker_hub_tags place.1
          | false ↦ elim (place.0 == codes "ghcr.io") [ true ↦ ghcr_tags place.1 | false ↦ pure [] ]
        ]

    unfoldable pub latest_container_image_tag :
        (ℕ → Option ℕ) → Text → Option Text → Exec Requests (Option Text)
    unfolding container_registry_tags latest_of
    latest_container_image_tag decimal repository current_tag = do
      tags ← container_registry_tags repository
      pure (latest_of decimal repository current_tag tags)
