-- ===== src/Analysis/Catalog.antt =====
-- `_COMPILED_SIGNATURES` of backend/app/analysis/engine.py: the catalog, less the patterns that `re` refuses.
mod Web
mod Exploits
mod Theft
mod Movement
mod Network
use Web.{web_signatures}
use Exploits.{exploit_signatures}
use Theft.{theft_signatures}
use Movement.{movement_signatures}
use Network.{network_signatures}
use aegisiq.Analysis.Signatures.{Signature}
use aegisiq.Prelude.{String, Bool, List, ◌++◌, where_rows}

abbrev pub threat_signatures : List Signature
threat_signatures =
    web_signatures
    ++ (exploit_signatures ++ (theft_signatures ++ (movement_signatures ++ network_signatures)))

unfoldable pub compiled_signatures : (String → Bool) → List Signature
compiled_signatures compiles = where_rows (λ s. compiles s.pattern) threat_signatures
