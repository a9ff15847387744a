-- ===== src/Rekor/Matching/Tests.antt =====
-- An entry with two fingerprints and a subject, of which one fingerprint and the subject are watched.
use rekor_monitor.Base.{Result, ok, String, List, [], ◌∷◌}
use rekor_monitor.Base.Classes.{string_comparable}
use rekor_monitor.Base.Int.{pos}
use rekor_monitor.Identity.{MonitoredValues}
use rekor_monitor.Identity.Tests.{watched}
use rekor_monitor.Rekor.Matching.{Place, Identities}

abbrev values : MonitoredValues
values = record watched { certificate_identities = []; subjects = "bob" ∷ [] }

abbrev here : Place
here = record { index = pos 4; uuid = "uuid" }

abbrev identities : Identities
identities = record { subjects = "bob" ∷ []; certificates = []; fingerprints = "f1" ∷ "f2" ∷ [] }

abbrev read_file : String → Result String
read_file name = ok name

abbrev extract : List String → Result Identities
extract vs = ok identities
