-- ===== src/Tests/ConfigTests.antt =====
-- Tests of internal/config.
use warp_router.Prelude.{[], ◌∷◌, ◌≡◌, refl, lookup, insert}
use warp_router.Config.Errors.{duplicate_name, wan_required}
use warp_router.Config.Validate.{validate}
use warp_router.Config.Validate.Interfaces.{validate_interfaces}
use warp_router.Config.Valid.{IsValidConfig, validate_iff}
use warp_router.Net.{contains}
use warp_router.Tests.Fixtures.{net, lan1, site}

site_validates : validate net site ≡ []
unfolding validate contains lookup insert
site_validates = refl

bad_interfaces :
    validate_interfaces net (lan1 ∷ record lan1 { device = "eth3.100" } ∷ [])
    ≡ duplicate_name 1 "lan1" ∷ wan_required ∷ []
unfolding validate_interfaces lookup insert
bad_interfaces = refl

validate_iff_example : IsValidConfig net site
validate_iff_example = (validate_iff net site).0 site_validates
