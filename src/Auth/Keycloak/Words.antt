-- ===== src/Auth/Keycloak/Words.antt =====
-- The scope string: what `join` writes, `split` and `filter` read back.
use apicenter_hehe.Common.{String, ◌≢◌}
use apicenter_hehe.Common.Split.{Without}

-- A scope: a text that is not empty and has no space in it.
abbrev pub IsScope : String → Type 0
IsScope s = (s ≢ "") × Without b' ' s
