-- ===== src/Tests/Fetching.antt =====
-- What is fetched, at a module with a command that fails.
use nixadmin.Prelude.{◌≡◌, ◌≤◌, refl, ℕ, false, [], ◌∷◌, ◌==◌, string_eq}
use nixadmin.Prelude.Text.{strip, join}
use nixadmin.Prelude.Slice.{size}
use nixadmin.Sdk.{Fetcher, Module}
use nixadmin.Prefetch.{
  Ran, failed, run, without_escapes, escape_length, csi, csi_end, to_bell, to_terminator, label_of,
  format_result, truncate, prefetch, fetched, selected, sections, without_nul, max_prefetch_chars,
}
use nixadmin.Prefetch.Grounding.{none_fetches, prefetch-IsGrounding}

abbrev links : Fetcher
links = record {
  name = "links";
  cmd = "ip link";
  description = "";
  timeout = 15;
  expose_as_tool = false;
}

abbrev network : Module
network = record { name = "network"; description = "WiFi"; fetchers = links ∷ []; monitors = [] }

-- A colour, a title that ends with a bell, and an escape that is none.
plain : without_escapes 0 "a\u{1b}[1;31mb\u{1b}]0;t\u{7}c\u{1b}d" ≡ "abc\u{1b}d"
unfolding without_escapes escape_length csi csi_end to_bell to_terminator
plain = refl

abbrev unavailable : ℕ → Fetcher → Ran
unavailable n f = failed "no such file"

-- A command that could not be started is shown like any other output.
shown : prefetch unavailable (network ∷ []) ≡ "## network/links\n(error: no such file)"
unfolding fetched selected sections format_result label_of run without_escapes without_nul truncate
    size join string_eq
shown = refl

prefetch-IsGrounding_example :
    (size (prefetch unavailable (network ∷ [])) ≤ max_prefetch_chars)
    × ((strip (prefetch unavailable (network ∷ [])) == "") ≡ none_fetches (network ∷ []))
prefetch-IsGrounding_example = prefetch-IsGrounding unavailable (network ∷ [])
