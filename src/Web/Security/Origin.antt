-- ===== src/Web/Security/Origin.antt =====
-- The hosts and origins that src/nixadmin/web/security.py accepts.
use mathlib.Core.Bool.{true≢false}
use text.Mathlib.TextLemmas.{append-eq-nil_iff, nil-append, append-nil}
use nixadmin.Prelude.{
  eq-true, or-true, and-true, ℕ, String, ◌<>◌, Bool, true, false, not, ◌&&◌, ◌||◌, Option, [], ◌∷◌,
  ◌==◌, contains, string_eq, if◌then◌else◌, ◌≡◌, ◌≢◌, ap, refl, sym, ◌∙◌, ◌⊎◌, inl, inr,
}
use nixadmin.Prelude.Text.{decimal}
use nixadmin.Prelude.Split.{
  joined, partition, rpartition, partition-joined, partition_absent, rpartition-joined,
  rpartition_absent,
}
use nixadmin.Web.Security.{loopback_hosts, value_of, host_ok, origin_ok}

-- A loopback host, with no port, an empty port, or the server's own.
pub record IsLoopback (port : ℕ) (s : String) : Type 0 where
  pub host : String
  pub suffix : String
  pub spelled : s ≡ host <> suffix
  pub is_host : contains loopback_hosts host ≡ true
  pub is_suffix : (suffix ≡ "") ⊎ ((suffix ≡ ":") ⊎ (suffix ≡ ":" <> decimal port))

-- http or https at such a host.
pub record IsOwnOrigin (port : ℕ) (origin : String) : Type 0 where
  pub scheme : String
  pub authority : String
  pub spelled : origin ≡ scheme <> "://" <> authority
  pub is_http : contains ("http" ∷ "https" ∷ []) scheme ≡ true
  pub is_loopback : IsLoopback port authority

abbrev is_port : ℕ → String → Bool
is_port port s = s == "" || s == decimal port

suffix_cases :
    (port : ℕ) (after : String)
    → is_port port after ≡ true
    → (":" <> after ≡ "") ⊎ ((":" <> after ≡ ":") ⊎ (":" <> after ≡ ":" <> decimal port))
suffix_cases port after h = elim (or-true (after == "") (after == decimal port) h) [
  | inl empty ↦ inr (inl (ap (λ s. ":" <> s) (eq-true after "" empty)))
  | inr same ↦ inr (inr (ap (λ s. ":" <> s) (eq-true after (decimal port) same)))
]

parts-IsLoopback :
    (port : ℕ) (s before after : String) (found : Bool)
    → s ≡ joined ":" (record { before = before; found = found; after = after })
    → contains loopback_hosts before ≡ true
    → is_port port after ≡ true
    → (found ≡ false → after ≡ "")
    → IsLoopback port s
unfolding joined
parts-IsLoopback port s before after true spelled host fits absent = record {
  host = before;
  suffix = ":" <> after;
  spelled = spelled;
  is_host = host;
  is_suffix = suffix_cases port after fits;
}
parts-IsLoopback port s before after false spelled host fits absent = record {
  host = before;
  suffix = after;
  spelled = spelled;
  is_host = host;
  is_suffix = inl (absent refl);
}

authority-IsLoopback :
    (port : ℕ) (s : String)
    → is_port port (partition ":" s).after ≡ true
    → contains loopback_hosts (partition ":" s).before ≡ true
    → IsLoopback port s
authority-IsLoopback port s fits host =
    let parts = partition ":" s in
    parts-IsLoopback port s parts.before parts.after parts.found (partition-joined ":" s) host fits
      (partition_absent ":" s)

host-ne-nil : (host : String) → contains loopback_hosts host ≡ true → ◌≢◌ {A = String} host ""
unfolding string_eq
host-ne-nil host h empty = true≢false (sym h ∙ ap (contains loopback_hosts) empty)

authority-ne-nil : (port : ℕ) (s : String) → IsLoopback port s → ◌≢◌ {A = String} s ""
authority-ne-nil port s own empty =
    host-ne-nil own.host own.is_host
      ((append-eq-nil_iff {p = own.host} {q = own.suffix}).0 (sym own.spelled ∙ empty)).0

origin-IsOwn :
    (port : ℕ) (s before after : String) (found : Bool)
    → s ≡ joined "://" (record { before = before; found = found; after = after })
    → contains ("http" ∷ "https" ∷ []) before ≡ true
    → IsLoopback port after
    → (found ≡ false → after ≡ "")
    → IsOwnOrigin port s
unfolding joined
origin-IsOwn port s before after true spelled scheme own absent = record {
  scheme = before;
  authority = after;
  spelled = spelled;
  is_http = scheme;
  is_loopback = own;
}
origin-IsOwn port s before after false spelled scheme own absent =
    absurd (authority-ne-nil port after own (absent refl))

if-origin : (empty : Bool) (rest : Bool) → (if empty then not true else rest) ≡ true → rest ≡ true
if-origin true rest h = cc
if-origin false rest h = h

-- An origin that `origin_ok` accepts for a change is http or https on a loopback host, with no port, an empty one or the server's.
pub origin_ok-IsOwnOrigin :
    (origin : Option String) (port : ℕ)
    → origin_ok origin port true ≡ true
    → IsOwnOrigin port (value_of origin)
unfolding origin_ok
origin_ok-IsOwnOrigin origin port h =
    let url = partition "://" (value_of origin) in
    let authority = partition ":" url.after in
    let (scheme, rest) =
      and-true (contains ("http" ∷ "https" ∷ []) url.before)
        (is_port port authority.after && contains loopback_hosts authority.before)
        (if-origin (value_of origin == "")
          (contains ("http" ∷ "https" ∷ []) url.before
            && (is_port port authority.after && contains loopback_hosts authority.before))
          h) in
    let (fits, host) =
      and-true (is_port port authority.after) (contains loopback_hosts authority.before) rest in
    origin-IsOwn port (value_of origin) url.before url.after url.found
      (partition-joined "://" (value_of origin)) scheme
      (authority-IsLoopback port url.after fits host) (partition_absent "://" (value_of origin))

abbrev name_if : Bool → String → String → String
name_if b before after = if b then after else before

abbrev port_if : Bool → String → String
port_if b after = if b then "" else after

host-IsLoopback :
    (port : ℕ) (s before after : String) (found b : Bool)
    → s ≡ joined ":" (record { before = before; found = found; after = after })
    → (found ≡ false → before ≡ "")
    → (before == "") ≡ b
    → is_port port (port_if b after) ≡ true
    → contains loopback_hosts (name_if b before after) ≡ true
    → IsLoopback port s
      ⊎ ((host : String) × (contains loopback_hosts host ≡ true) × (s ≡ ":" <> host))
unfolding joined
host-IsLoopback port s before after true true spelled absent empty fits host = inr (
  after,
  host,
  spelled ∙ ap (λ t. t <> ":" <> after) (eq-true before "" empty) ∙ nil-append (":" <> after),
)
host-IsLoopback port s before after false true spelled absent empty fits host = inl (record {
  host = after;
  suffix = "";
  spelled =
      spelled
      ∙ ap (λ t. t <> after) (eq-true before "" empty)
      ∙ nil-append after
      ∙ sym (append-nil after);
  is_host = host;
  is_suffix = inl refl;
})
host-IsLoopback port s before after true false spelled absent empty fits host =
    inl (parts-IsLoopback port s before after true spelled host fits (λ h. cc))
host-IsLoopback port s before after false false spelled absent empty fits host =
    absurd (host-ne-nil before host (absent refl))

-- A `Host` that `host_ok` accepts is a loopback host, with no port, an empty one or the server's,
-- or such a host behind a colon.
pub host_ok-IsLoopback :
    (header : Option String) (port : ℕ)
    → host_ok header port ≡ true
    → IsLoopback port (value_of header)
      ⊎ ((host : String) × (contains loopback_hosts host ≡ true) × (value_of header ≡ ":" <> host))
unfolding host_ok
host_ok-IsLoopback header port h =
    let s = value_of header in
    let parts = rpartition ":" s in
    let b = parts.before == "" in
    let fits = is_port port (port_if b parts.after) in
    let known = contains loopback_hosts (name_if b parts.before parts.after) in
    let (_, rest) = and-true (not (s == "")) (fits && known) h in
    let (fit, host) = and-true fits known rest in
    host-IsLoopback port s parts.before parts.after parts.found b (rpartition-joined ":" s)
      (rpartition_absent ":" s) refl fit host
