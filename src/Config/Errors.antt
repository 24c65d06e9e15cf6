-- ===== src/Config/Errors.antt =====
-- internal/config/validate.go: the errors, one constructor for each call of fmt.Errorf with the
-- values that its text shows.
use warp_router.Prelude.{ℕ, ℤ, String}
use warp_router.Net.{IpNet}

pub data ConfigError : Type 0 where
  hostname_required interface_required : ConfigError
  name_required : (i : ℕ) → ConfigError
  duplicate_name : (i : ℕ) (name : String) → ConfigError
  device_required : (i : ℕ) (name : String) → ConfigError
  duplicate_device : (i : ℕ) (name device : String) → ConfigError
  bad_role : (i : ℕ) (name role : String) → ConfigError
  address_required : (i : ℕ) (name : String) → ConfigError
  invalid_address : (i : ℕ) (name address : String) → ConfigError
  invalid_gateway : (i : ℕ) (name gateway : String) → ConfigError
  vlan_out_of_range : (i : ℕ) (name : String) (vlan : ℤ) → ConfigError
  vlan_device_not_dotted : (i : ℕ) (name : String) (vlan : ℤ) → ConfigError
  wan_required lan_required : ConfigError
  overlapping_subnets :
      (name : String) (net : IpNet) (other : String) (other_net : IpNet) → ConfigError
  invalid_subnet : (i : ℕ) (subnet : String) → ConfigError
  subnet_interface_undefined : (i : ℕ) (interface : String) → ConfigError
  pool_start_required pool_end_required subnet_gateway_required : (i : ℕ) → ConfigError
  invalid_pool_start invalid_pool_end invalid_subnet_gateway : (i : ℕ) (ip : String) → ConfigError
  pool_start_outside pool_end_outside : (i : ℕ) (ip subnet : String) → ConfigError
  invalid_dns_server : (i j : ℕ) (ip : String) → ConfigError
  invalid_forwarder : (i : ℕ) (ip : String) → ConfigError
  invalid_allow_from : (i : ℕ) (cidr : String) → ConfigError
  zone_name_required : (i : ℕ) → ConfigError
  zone_interface_undefined : (i j : ℕ) (interface : String) → ConfigError
  from_zone_undefined to_zone_undefined input_zone_undefined : (i : ℕ) (zone : String) → ConfigError
  bad_forward_action bad_input_action : (i : ℕ) (action : String) → ConfigError
  pbr_name_required : (i : ℕ) → ConfigError
  pbr_interface_undefined : (i : ℕ) (name interface : String) → ConfigError
  pbr_source_invalid : (i : ℕ) (name source : String) → ConfigError
  duplicate_priority : (i : ℕ) (name : String) (priority : ℤ) (existing : String) → ConfigError
