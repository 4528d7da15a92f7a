-- ===== src/Device/Contracts/Sites.antt =====
-- The query of a site's properties in examples/device/src/cxx_device.cpp returns the codes that
-- include/qdmi/device.h documents.
use qdmi.Base.{
  ℕ, ◌≡◌, ◌⊎◌, inl, inr, refl, Bool, true, false, ◌||◌, ◌==◌, if◌then◌else◌, Option, none, some,
  arith, Bool-cases, lookup,
}
use qdmi.Base.Bytes.{Bytes}
use qdmi.Constants.{error_invalid_argument, is_invalid_enum_value}
use qdmi.Constants.SiteProperty
use qdmi.Output.{Request, Reply, fail, is_empty_buffer}
use qdmi.Output.Serves.{IsContract}
use qdmi.Device.State.{Session, Build}
use qdmi.Device.Tables.{site_id}
use qdmi.Device.Query.{site_properties, query_site_property}
use qdmi.Device.Query.Tables.{site_table, site_table-IsFull}
use qdmi.Device.Contracts.{no_cause}
use qdmi.Device.Contracts.Properties.{single-Documented}
use qdmi.Device.Contracts.Reply.{OfReply, empty-IsSmall}
use qdmi.Interface.{Documented, invalid, caused, reported, IsSmall}
use qdmi.Interface

-- The index of a site; where there is none, any number does for the other properties.
abbrev pub index_of : Build → ℕ → ℕ
index_of b site = elim (site_id b site) [ none ↦ 0 | some id ↦ id ]

-- The properties of a site.
abbrev pub data_of_site : Build → ℕ → ℕ → Option Bytes
data_of_site b site prop = lookup prop (site_table (index_of b site))

module _ (b : Build) (s : Session) (site prop : ℕ) (r : Request) (h : IsContract r) where
  abbrev IsSiteQuery : Option Bytes → Option Reply → Type 0
  IsSiteQuery payload = OfReply (Interface.QuerySiteProperty (some s) site prop payload r)

  abbrev IsBad : Type 0
  IsBad =
      (some s ≡ none) ⊎ ((site ≡ 0) ⊎ (is_invalid_enum_value prop SiteProperty.max_value ≡ true))

  not_bad :
      (site == 0) ≡ false → is_invalid_enum_value prop SiteProperty.max_value ≡ false → ¬ IsBad
  not_bad real valid = no_cause (λ n. cc) (no_cause (λ z. ground arith) (λ n. cc))

  site_properties-Documented :
      (id : ℕ) → ¬ IsBad → IsSiteQuery (lookup prop (site_table id)) (site_properties id prop r)
  unfolding site_properties
  site_properties-Documented id fine = single-Documented _ _ fine prop r h _ _ _ _ (
      single-Documented _ _ fine prop r h _ _ _ _ (
        single-Documented _ _ fine prop r h _ _ _ _
          (single-Documented _ _ fine prop r h _ _ _ _ (reported _ fine (inl refl)))))

  unread :
      (t : Bool) (payload : Option Bytes) (out : Option Reply)
      → IsSiteQuery payload out
      → IsSiteQuery payload (if t then none else out)
  unread true payload out k = tt
  unread false payload out k = k

  at_site-Documented :
      (o : Option ℕ)
      → ¬ IsBad
      → IsSiteQuery (lookup prop (site_table (elim o [ none ↦ 0 | some id ↦ id ]))) (elim o [
        | some id ↦ site_properties id prop r
        | none ↦ if prop == SiteProperty.index then none else site_properties 0 prop r
      ])
  at_site-Documented none fine = unread _ _ _ (site_properties-Documented 0 fine)
  at_site-Documented (some id) fine = site_properties-Documented id fine

  query_refused :
      (site == 0 || is_empty_buffer r || is_invalid_enum_value prop SiteProperty.max_value) ≡ true
      → query_site_property b (some s) site prop r ≡ some (fail r error_invalid_argument)
  unfolding query_site_property
  query_refused e = rw (query_site_property, e)

  query_answered :
      (site == 0 || is_empty_buffer r || is_invalid_enum_value prop SiteProperty.max_value) ≡ false
      → query_site_property b (some s) site prop r ≡ (elim (site_id b site) [
        | some id ↦ site_properties id prop r
        | none ↦ if prop == SiteProperty.index then none else site_properties 0 prop r
      ])
  unfolding query_site_property
  query_answered e = rw (query_site_property, e)

  refused-Documented :
      (site == 0 || is_empty_buffer r || is_invalid_enum_value prop SiteProperty.max_value) ≡ true
      → IsSiteQuery (data_of_site b site prop) (query_site_property b (some s) site prop r)
  refused-Documented e = elim (Bool-cases (site == 0)) [
    | inl null ↦ rw (query_refused e) (invalid (inr (inl (ground arith))))
    | inr real ↦ elim (Bool-cases (is_invalid_enum_value prop SiteProperty.max_value)) [
      | inl bad ↦ rw (query_refused e) (invalid (inr (inr bad)))
      | inr valid ↦ rw (query_refused e) (
          caused (not_bad real valid)
            (empty-IsSmall prop _ r (site_table-IsFull (index_of b site)) (ground arith)))
    ]
  ]

  answered-Documented :
      (site == 0 || is_empty_buffer r || is_invalid_enum_value prop SiteProperty.max_value) ≡ false
      → IsSiteQuery (data_of_site b site prop) (query_site_property b (some s) site prop r)
  answered-Documented e =
      rw (query_answered e)
        (at_site-Documented (site_id b site) (not_bad (ground arith) (ground arith)))

pub query_site_property-Documented :
    (b : Build) (session : Option Session) (site prop : ℕ) (r : Request)
    → IsContract r
    → OfReply
        (Interface.QuerySiteProperty session site prop (data_of_site b site prop) r)
        (query_site_property b session site prop r)
unfolding query_site_property
query_site_property-Documented b none site prop r h = invalid (inl refl)
query_site_property-Documented b (some s) site prop r h =
    elim (Bool-cases
      (site == 0 || is_empty_buffer r || is_invalid_enum_value prop SiteProperty.max_value)) [
        | inl bad ↦ refused-Documented b s site prop r h bad
        | inr good ↦ answered-Documented b s site prop r h good
      ]
