-- ===== src/UnifiApi/Connect/Sessions.antt =====
-- What `connect` of unifi_api.py leaves behind.
use voucher_management_deskt.UnifiApi.Pages.{Page}
use voucher_management_deskt.Workflows.Remote.{
  Reply, answer, Reply-cases, fail, RemoteError, api_error,
}
use voucher_management_deskt.UnifiApi.Http.{Client, Request, request, info_request}
use voucher_management_deskt.Prelude.{
  List, ℕ, ◌≡◌, ◌≢◌, length, none, ◌≤◌, ◌+◌, ◌<◌, arith, length-append, ◌∷◌, suc, inr, [], inl,
  eqb_iff, refl, zero, String, Option, some, is_empty, strip, false, ◌⊎◌, true, Bool-cases, ap,
}
use voucher_management_deskt.Json.{Python, Json, find}
use voucher_management_deskt.UnifiApi.Connect.{
  text_or_empty, add_sites, read_sites, list_sites, Site, add_site, fetch_sites, site_of, connect,
  open_session, Session, closed, selected_site,
}
use voucher_management_deskt.UnifiApi.Pages.Answer.{is_nil-length}

add_site-length :
    (known : List Site) (s : Reply Site) (sites : List Site)
    → add_site known s ≡ answer sites
    → length sites ≡ length known + 1
add_site-length known (fail e) sites h = ground arith
add_site-length known (answer s) sites h = ground (arith, length-append known (s ∷ []))

module _ (py : Python) where
  add_sites-length :
      (known : List Site) (xs : List Json) (sites : List Site)
      → add_sites py known xs ≡ answer sites
      → length sites ≡ length known + length xs
  unfolding add_sites
  add_sites-length known [] sites h = ground arith
  add_sites-length known (x ∷ xs) sites h = elim (Reply-cases (add_site known (site_of py x))) [
    | inr (e, r) ↦ ground arith
    | inl (more, r) ↦
        ground (arith, add_sites-length more xs sites, add_site-length known (site_of py x) more r)
  ]

  module _ (c : Client) where
    read_sites-ends :
        (fuel total : ℕ) (known : List Site) (offset : ℕ) (page : Page) (log : List Request)
        → length known ≡ offset
        → offset ≤ total
        → total < offset + fuel
        → (read_sites py c fuel total known offset page log).0 ≢ answer none
    unfolding read_sites
    read_sites-ends zero total known offset page log a b d h = omega arith
    read_sites-ends (suc fuel) total known offset page log a b d h =
        elim (Reply-cases (add_sites py known page.data_items)) [
          | inr (x, e) ↦ ground arith
          | inl (known', e) ↦
              elim (Reply-cases (fetch_sites py c (offset + length page.data_items) log).0) [
                | inr (x, e') ↦ ground arith
                | inl (next, e') ↦ ground (
                  arith,
                  add_sites-length known page.data_items known' e,
                  is_nil-length page.data_items,
                  eqb_iff page.total total,
                  read_sites-ends fuel total known' (offset + length page.data_items) next
                      (fetch_sites py c (offset + length page.data_items) log).1,
                )
              ]
        ]

    list_sites-ends : (log : List Request) → (list_sites py c log).0 ≢ answer none
    unfolding list_sites
    list_sites-ends log h = elim (Reply-cases (fetch_sites py c 0 log).0) [
      | inr (x, e) ↦ ground arith
      | inl (page, e) ↦ ground (
        arith,
        read_sites-ends (suc page.total) page.total [] 0 page (fetch_sites py c 0 log).1 refl
            (omega arith) (omega arith),
      )
    ]

    abbrev opened : String → List Request → Reply (Option Session)
    opened preferred log = (open_session py c preferred log).0

    -- the `try` block opens a session of this key with a site, or raises
    open_session-cases :
        (preferred : String) (log : List Request)
        → ((s : Session) × (opened preferred log ≡ answer (some s))
            × (s.key ≡ c.api_key)
            × (is_empty s.site_id ≡ false))
          ⊎ ((e : RemoteError) × (opened preferred log ≡ fail e))
    unfolding open_session
    open_session-cases preferred log =
        let log1 = (request c info_request log).1 in
        elim (Reply-cases (request c info_request log).0) [
          | inr (e, r) ↦ inr (e, ground arith)
          | inl (info, r) ↦
              (let version = text_or_empty py (find "applicationVersion" info) in
                elim (Bool-cases (is_empty version)) [
                  | inl v ↦ inr (api_error, ground arith)
                  | inr v ↦ elim (Reply-cases (list_sites py c log1).0) [
                    | inr (e, l) ↦ inr (e, ground arith)
                    | inl (none, l) ↦ absurd (list_sites-ends log1 l)
                    | inl (some sites, l) ↦ elim (Reply-cases (selected_site preferred sites)) [
                      | inr (e, s) ↦ inr (e, ground arith)
                      | inl (site, s) ↦ elim (Bool-cases (is_empty site.id)) [
                        | inl n ↦ inr (api_error, ground arith)
                        | inr n ↦ inl (
                          record {
                            key = c.api_key;
                            site_id = site.id;
                            site_name = site.name;
                            application_version = version;
                          },
                          ground arith,
                          refl,
                          n,
                        )
                      ]
                    ]
                  ]
                ])
        ]

  -- A connection that succeeds leaves the key that was given, stripped and not empty, and a site; one that
  -- fails leaves no key and no site, or, where the key given is blank, the client as it was.
  pub connect-closed :
      (c : Client) (preferred api_key : String) (session : Session) (log : List Request)
      → ((s : Session) × ((connect py c preferred api_key session log).0 ≡ answer (some s))
          × ((connect py c preferred api_key session log).2 ≡ s)
          × (s.key ≡ strip api_key)
          × (is_empty s.key ≡ false)
          × (is_empty s.site_id ≡ false))
        ⊎ ((e : RemoteError) × ((connect py c preferred api_key session log).0 ≡ fail e)
            × (((connect py c preferred api_key session log).2 ≡ closed)
                ⊎ ((is_empty (strip api_key) ≡ true)
                    × ((connect py c preferred api_key session log).2 ≡ session))))
  unfolding connect
  connect-closed c preferred api_key session log = elim (Bool-cases (is_empty (strip api_key))) [
    | inl b ↦ inr (api_error, ground arith, inr (b, ground arith))
    | inr b ↦
        elim (open_session-cases (record c { api_key = strip api_key; site_id = "" }) preferred
          log) [
            | inl (s, r, k, n) ↦
                inl (s, ground arith, ground arith, k, ground (arith, ap is_empty k), n)
            | inr (e, r) ↦ inr (e, ground arith, inl (ground arith))
          ]
  ]
