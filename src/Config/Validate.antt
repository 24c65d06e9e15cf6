-- ===== src/Config/Validate.antt =====
-- internal/config/validate.go: Validate, which returns the errors of all checks in their order.
pub mod Interfaces
pub mod Services
use warp_router.Prelude.{List, ◌++◌}
use warp_router.Config.{SiteConfig}
use warp_router.Config.Errors.{ConfigError}
use warp_router.Net.{Net}
use Interfaces.{validate_required, validate_interfaces, validate_subnet_overlaps}
use Services.{validate_dhcp, validate_dns, validate_firewall, validate_pbr}

unfoldable pub validate : Net → SiteConfig → List ConfigError
unfolding validate_required validate_interfaces validate_subnet_overlaps validate_dhcp validate_dns
    validate_firewall validate_pbr
validate net cfg =
    validate_required cfg
    ++ (validate_interfaces net cfg.interfaces
        ++ (validate_subnet_overlaps net cfg.interfaces
            ++ (validate_dhcp net cfg.interfaces cfg.dhcp
                ++ (validate_dns net cfg.dns
                    ++ (validate_firewall cfg.interfaces cfg.firewall
                        ++ validate_pbr net cfg.interfaces cfg.pbr)))))
