-- ===== src/Config/Parse/Accepted.antt =====
-- What an accepted document gives.
use skai_edge_native.Common.{◌≡◌, refl, arith, true}
use skai_edge_native.Config.{Library, Config}
use skai_edge_native.Config.Outcome.{Outcome, fine, throws, ◌>>=◌, is_fine}
use skai_edge_native.Config.Document.{Node}
use skai_edge_native.Config.Validate.{validate}
use skai_edge_native.Config.Validate.Usable.{IsUsable, validate-IsUsable}
use skai_edge_native.Config.Parse.{parse_sections, parse, result_of, parse_config}

module _ {F : Type 0} (library : Library F) where
  chain_lem :
      (sections : Outcome (Config F)) {config : Config F}
      → (sections >>= λ c. validate library c >>= λ _. fine c) ≡ fine config
      → is_fine (validate library config) ≡ true
  chain_lem (fine c) h = ground arith
  chain_lem (throws message) h = ground arith

  parse-validate :
      (root : Node) (config : Config F)
      → parse library root ≡ fine config
      → is_fine (validate library config) ≡ true
  unfolding parse
  parse-validate root config h = chain_lem (parse_sections library root) h

  result_of-IsUsable :
      (outcome : Outcome (Config F))
      → ((config : Config F) → outcome ≡ fine config → is_fine (validate library config) ≡ true)
      → (result_of library outcome).is_ok ≡ true
      → IsUsable (result_of library outcome).config
  unfolding result_of
  result_of-IsUsable (fine config) valid h = validate-IsUsable library config (valid config refl)
  result_of-IsUsable (throws message) valid h = absurd (ground arith)

  -- A document that is accepted gives a configuration with a URL of the scheme rtsp, a positive
  -- delay before a retry that is at most the largest one, a positive stall timeout, between 1 and
  -- 100 viewers whose queues can be made, alert rules with a positive number of frames and no
  -- negative cooldown, and an uplink that is off, or encrypted, or on the loopback interface.
  pub parse_config-IsUsable :
      (loaded : Outcome Node)
      → (parse_config library loaded).is_ok ≡ true
      → IsUsable (parse_config library loaded).config
  unfolding parse_config
  parse_config-IsUsable (fine root) h =
      result_of-IsUsable (parse library root) (parse-validate root) h
  parse_config-IsUsable (throws message) h =
      result_of-IsUsable (throws message) (λ config e. absurd (ground arith)) h
