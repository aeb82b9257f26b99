-- ===== src/Updater/Registry/Requests.antt =====
-- How often a look-up calls `urlopen`, and with which addresses.
use mathlib.Core.Path.{subst}
use fastdjango.Base.{
  ℕ, suc, zero, ◌+◌, ◌≤◌, ◌≡◌, ◌∙◌, ap, Bool, true, false, List, [], ◌++◌, Option, none, some, Text,
  codes, ◌==◌, text_eq, eq_iff, length, All, Bool-cases, inl, inr, arith,
}
use fastdjango.Outcome.{Outcome, ok, raise, Exec, pure, continue, Outcome-cases, ◌>>=◌}
use fastdjango.Updater.Images.{container_registry_and_path}
use fastdjango.Updater.Choice.{latest_of}
use fastdjango.Updater.Registry.{
  Requests, JsonResponse, Fields, get, filled, json_response, fields_of, link_of, request_over,
  and_then, next_ghcr_url, tag_names_from_docker_hub_payload, tag_names_from_registry_payload,
  docker_hub_page, docker_hub_pages, docker_hub_tags, ghcr_page, ghcr_pages, ghcr_token, pages_with,
  ghcr_tags, container_registry_tags, latest_container_image_tag,
}

module _ (scheme : Text → Outcome Text) where
  -- Every address that `urlopen` is called with has the scheme `https`.
  abbrev pub IsSecure : Requests → Type 0
  IsSecure = All λ url. scheme url ≡ ok (codes "https")

  -- The action calls `urlopen` `n` times at most, always with an HTTPS address, whether it returns or raises.
  pub record Makes {A : Type 0} (n : ℕ) (m : Exec Requests A) : Type 0 where
    pub few : (before : Requests) → length (m before).1 ≤ n + length before
    pub secure : (before : Requests) → IsSecure before → IsSecure (m before).1

module _ (scheme : Text → Outcome Text) {A : Type 0} where
  pub Makes-pure : (n : ℕ) (a : A) → Makes scheme n (pure a)
  Makes-pure n a = record { few = λ before. omega arith; secure = λ before h. h }

  Makes-weaken : (n k : ℕ) (m : Exec Requests A) → n ≤ k → Makes scheme n m → Makes scheme k m
  Makes-weaken n k m l h = record {
    few = λ before. omega (arith, l, h.few before);
    secure = h.secure;
  }

  Makes-elim :
      (b : Bool) (n : ℕ) (m k : Exec Requests A)
      → Makes scheme n m
      → Makes scheme n k
      → Makes scheme n (elim b [ true ↦ m | false ↦ k ])
  Makes-elim true n m k h l = h
  Makes-elim false n m k h l = l

module _ (scheme : Text → Outcome Text) {A B : Type 0} (n k : ℕ) where
  continued-few :
      (r : Outcome A) (f : A → Exec Requests B) (rs : Requests) (bound : ℕ)
      → ((a : A) → Makes scheme k (f a))
      → length rs ≤ bound
      → length (continue r f rs).1 ≤ k + bound
  continued-few (ok a) f rs bound h l = omega (arith, (h a).few rs, l)
  continued-few (raise e) f rs bound h l = omega (arith, l)

  continued-IsSecure :
      (r : Outcome A) (f : A → Exec Requests B) (rs : Requests)
      → ((a : A) → Makes scheme k (f a))
      → IsSecure scheme rs
      → IsSecure scheme (continue r f rs).1
  continued-IsSecure (ok a) f rs h s = (h a).secure rs s
  continued-IsSecure (raise e) f rs h s = s

  -- Requests add up.
  pub Makes-bind :
      (m : Exec Requests A) (f : A → Exec Requests B)
      → Makes scheme n m
      → ((a : A) → Makes scheme k (f a))
      → Makes scheme (n + k) (m >>= f)
  Makes-bind m f h l = record {
    few = λ before.
        omega
          (arith, continued-few (m before).0 f (m before).1 (n + length before) l (h.few before));
    secure = λ before s. continued-IsSecure (m before).0 f (m before).1 l (h.secure before s);
  }

module _ (scheme : Text → Outcome Text)
    (open_url : Requests → Text → Option Text → Outcome (Option JsonResponse)) where
  request_over-Makes :
      (url_scheme url : Text) (authorization : Option Text)
      → scheme url ≡ ok url_scheme
      → Makes scheme 1 (request_over scheme open_url url_scheme url authorization)
  unfolding request_over
  request_over-Makes url_scheme url authorization parsed =
      elim (Bool-cases (url_scheme == codes "https")) [
        | inl e ↦
            let https : scheme url ≡ ok (codes "https") =
              parsed ∙ ap ok ((eq_iff url_scheme (codes "https")).0 e) in
            rw (request_over, e)
              (record { few = λ before. omega arith; secure = λ before h. (https, h) })
        | inr e ↦ rw (request_over, e) (Makes-pure scheme 1 none)
      ]

  pub json_response-Makes :
      (url : Text) (authorization : Option Text)
      → Makes scheme 1 (json_response scheme open_url url authorization)
  unfolding json_response
  json_response-Makes url authorization = elim (Outcome-cases (scheme url)) [
    | inr (e, raised) ↦
        rw (json_response, raised) (record { few = λ before. omega arith; secure = λ before h. h })
    | inl (url_scheme, parsed) ↦
        let made = request_over-Makes url_scheme url authorization parsed in
        rw (json_response, parsed) (record { few = made.few; secure = made.secure })
  ]

  and_then-Makes :
      (names : List Text) (next : Option Text) (more : Text → Exec Requests (List Text)) (n : ℕ)
      → ((url : Text) → Makes scheme n (more url))
      → Makes scheme n (and_then scheme open_url names next more)
  and_then-Makes names none more n h = Makes-pure scheme n names
  and_then-Makes names (some url) more n h =
      subst (λ k. Makes scheme k (and_then scheme open_url names (some url) more)) (omega arith)
        (Makes-bind scheme n 0 (more url) _ (h url)
          (λ others. Makes-pure scheme 0 (names ++ others)))

  docker_hub_page-Makes :
      (n : ℕ) (more : Text → Exec Requests (List Text)) (payload : Option Fields)
      → ((url : Text) → Makes scheme n (more url))
      → Makes scheme n (docker_hub_page scheme open_url more payload)
  unfolding docker_hub_page
  docker_hub_page-Makes n more none h = Makes-pure scheme n []
  docker_hub_page-Makes n more (some payload) h =
      and_then-Makes (tag_names_from_docker_hub_payload payload)
        (filled (get (codes "next") payload)) more n h

  docker_hub_pages-Makes :
      (n : ℕ) (url : Text) → Makes scheme n (docker_hub_pages scheme open_url n url)
  unfolding docker_hub_pages
  docker_hub_pages-Makes zero url = Makes-pure scheme 0 []
  docker_hub_pages-Makes (suc n) url =
      subst (λ k. Makes scheme k (docker_hub_pages scheme open_url (suc n) url)) (omega arith)
        (Makes-bind scheme 1 n (json_response scheme open_url url none) _
          (json_response-Makes url none)
          (λ response.
            docker_hub_page-Makes n (docker_hub_pages scheme open_url n)
              (fields_of scheme open_url response) (docker_hub_pages-Makes n)))

  docker_hub_tags-Makes : (path : Text) → Makes scheme 20 (docker_hub_tags scheme open_url path)
  unfolding docker_hub_tags
  docker_hub_tags-Makes path = docker_hub_pages-Makes 20 _

  ghcr_page-Makes :
      (n : ℕ) (more : Text → Exec Requests (List Text)) (link : Option Text)
      (payload : Option Fields)
      → ((url : Text) → Makes scheme n (more url))
      → Makes scheme n (ghcr_page scheme open_url more link payload)
  unfolding ghcr_page
  ghcr_page-Makes n more link none h = Makes-pure scheme n []
  ghcr_page-Makes n more link (some payload) h =
      and_then-Makes (tag_names_from_registry_payload payload) (next_ghcr_url link) more n h

  ghcr_pages-Makes :
      (token : Text) (n : ℕ) (url : Text) → Makes scheme n (ghcr_pages scheme open_url token n url)
  unfolding ghcr_pages
  ghcr_pages-Makes token zero url = Makes-pure scheme 0 []
  ghcr_pages-Makes token (suc n) url =
      subst (λ k. Makes scheme k (ghcr_pages scheme open_url token (suc n) url)) (omega arith)
        (Makes-bind scheme 1 n (json_response scheme open_url url (some (codes "Bearer " ++ token)))
          _ (json_response-Makes url (some (codes "Bearer " ++ token)))
          (λ response.
            ghcr_page-Makes n (ghcr_pages scheme open_url token n)
              (link_of scheme open_url response) (fields_of scheme open_url response)
              (ghcr_pages-Makes token n)))

  module _ (urlencode : List (Text × Text) → Text) where
    pages_with-Makes :
        (repository_path : Text) (token : Option Text)
        → Makes scheme 20 (pages_with scheme open_url urlencode repository_path token)
    unfolding pages_with
    pages_with-Makes repository_path none = Makes-pure scheme 20 []
    pages_with-Makes repository_path (some token) = ghcr_pages-Makes token 20 _

    ghcr_tags-Makes :
        (repository_path : Text)
        → Makes scheme 21 (ghcr_tags scheme open_url urlencode repository_path)
    unfolding ghcr_tags ghcr_token
    ghcr_tags-Makes repository_path =
        Makes-bind scheme 1 20 (ghcr_token scheme open_url urlencode repository_path) _
          (Makes-bind scheme 1 0 (json_response scheme open_url _ none) _
            (json_response-Makes _ none) (λ response. Makes-pure scheme 0 _))
          (pages_with-Makes repository_path)

    container_registry_tags-Makes :
        (repository : Text)
        → Makes scheme 21 (container_registry_tags scheme open_url urlencode repository)
    unfolding container_registry_tags
    container_registry_tags-Makes repository =
        let place = container_registry_and_path repository in
        Makes-elim scheme (place.0 == codes "docker.io") 21 _ _
          (Makes-weaken scheme 20 21 (docker_hub_tags scheme open_url place.1) (omega arith)
            (docker_hub_tags-Makes place.1))
          (Makes-elim scheme (place.0 == codes "ghcr.io") 21 _ _ (ghcr_tags-Makes place.1)
            (Makes-pure scheme 21 []))

    -- Whatever the registries answer, a malformed page, an endless chain of next pages or an address
    -- elsewhere included, and whether or not the network raises: the look-up of an image's latest tag
    -- calls `urlopen` 21 times at most, each time with an address whose scheme is https. Where `urlopen`
    -- is redirected to is not counted.
    pub latest_container_image_tag-requests :
        (decimal : ℕ → Option ℕ) (repository : Text) (current_tag : Option Text)
        → (length
              (latest_container_image_tag scheme open_url urlencode decimal repository current_tag
                []).1
            ≤ 21)
          × IsSecure scheme
              (latest_container_image_tag scheme open_url urlencode decimal repository current_tag
                []).1
    unfolding latest_container_image_tag
    latest_container_image_tag-requests decimal repository current_tag =
        let bound =
          Makes-bind scheme 21 0 (container_registry_tags scheme open_url urlencode repository) _
            (container_registry_tags-Makes repository)
            (λ tags. Makes-pure scheme 0 (latest_of decimal repository current_tag tags)) in
        (bound.few [], bound.secure [] tt)
