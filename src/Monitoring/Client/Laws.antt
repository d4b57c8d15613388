-- ===== src/Monitoring/Client/Laws.antt =====
-- When NewClient succeeds.
use Prim.Native.String.{String}
use chatops.Base.{
  ◌≡◌, arith, Bool-cases, inl, inr, refl, ◌↔◌, ◌⊎◌, str_eq, str_eq_iff, none, Option-cases,
}
use chatops.Monitoring.Client.{Http, Client, ok, new_client, made, url_error}

module _ {W Q : Type 0} (http : Http W Q) where
  IsGoodUrl : String → Type 0
  IsGoodUrl url = (url ≡ "") ⊎ (http.parse_request_uri url ≡ none)

  url_error-good : (words url : String) → url_error http words url ≡ none → IsGoodUrl url
  unfolding IsGoodUrl
  url_error-good words url h = elim (Bool-cases (str_eq url "")) [
    | inl e ↦ inl ((str_eq_iff url "").0 e)
    | inr e ↦ elim (Option-cases (http.parse_request_uri url)) [
      | inl n ↦ inr n
      | inr (x, n) ↦ absurd (ground (arith, e, n))
    ]
  ]

  good-url_error : (words url : String) → IsGoodUrl url → url_error http words url ≡ none
  unfolding IsGoodUrl
  good-url_error words url (inl e) = rw ((str_eq_iff url "").1 e)
  good-url_error words url (inr n) = ground (arith, n)

  new_client-ok :
      (prometheus alertmanager : String) (c : Client)
      → new_client http prometheus alertmanager ≡ ok c
      → IsGoodUrl prometheus × IsGoodUrl alertmanager
  unfolding new_client
  new_client-ok prometheus alertmanager c h =
      elim (Option-cases (url_error http "invalid prometheus URL: " prometheus)) [
        | inr (x, e) ↦ absurd (cc (rw (e, new_client) at h))
        | inl e ↦ elim (Option-cases (url_error http "invalid alertmanager URL: " alertmanager)) [
          | inr (x, f) ↦ absurd (cc (rw (f, new_client) at (rw (e, new_client) at h)))
          | inl f ↦ (url_error-good _ prometheus e, url_error-good _ alertmanager f)
        ]
      ]

  new_client-good :
      (prometheus alertmanager : String)
      → IsGoodUrl prometheus
      → IsGoodUrl alertmanager
      → new_client http prometheus alertmanager ≡ ok (made http prometheus alertmanager)
  unfolding new_client
  new_client-good prometheus alertmanager p a =
      rw (good-url_error "invalid prometheus URL: " prometheus p, new_client)
        (rw (good-url_error "invalid alertmanager URL: " alertmanager a, new_client))

  -- NewClient succeeds, and keeps both URLs as they are, exactly if each URL is empty or one that
  -- url.ParseRequestURI accepts.
  pub new_client_iff :
      (prometheus alertmanager : String)
      → ((c : Client) × (new_client http prometheus alertmanager ≡ ok c)
          × (c.prometheus_url ≡ prometheus)
          × (c.alertmanager_url ≡ alertmanager))
        ↔ (((prometheus ≡ "") ⊎ (http.parse_request_uri prometheus ≡ none))
            × ((alertmanager ≡ "") ⊎ (http.parse_request_uri alertmanager ≡ none)))
  unfolding IsGoodUrl
  new_client_iff prometheus alertmanager = (
    λ (c, made_it, _, _). new_client-ok prometheus alertmanager c made_it,
    λ (p, a). (
      made http prometheus alertmanager,
      new_client-good prometheus alertmanager p a,
      refl,
      refl,
    ),
  )
