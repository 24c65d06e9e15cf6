-- ===== src/Services/Nftables/Template.antt =====
-- internal/services/nftables/nftables.go: the template of nftables.conf.
use warp_router.Prelude.{String, string_eq, [], ◌∷◌, concat, concat_map, if◌then◌else◌, ◌==◌}
use warp_router.Config.{SiteConfig}
use warp_router.Services.Nftables.{NftRule, NftData, nft_data}

abbrev input_chain : String
input_chain = concat (
    "#!/usr/sbin/nft -f\n" ∷ "# Warp Router — nftables ruleset\n"
    ∷ "# Generated by 'warp apply'. Do not edit manually.\n" ∷ "\n" ∷ "flush ruleset\n" ∷ "\n"
    ∷ "table inet filter {\n" ∷ "    chain input {\n"
    ∷ "        type filter hook input priority filter; policy drop;\n" ∷ "\n"
    ∷ "        # Loopback\n" ∷ "        iif \"lo\" accept\n" ∷ "\n"
    ∷ "        # Established/related\n" ∷ "        ct state established,related accept\n" ∷ "\n"
    ∷ "        # ICMP\n" ∷ "        ip protocol icmp accept\n" ∷ "\n"
    ∷ "        # SSH (always allowed)\n" ∷ "        tcp dport 22 accept\n" ∷ "\n"
    ∷ "        # DHCP server\n" ∷ "        udp dport { 67, 68 } accept\n" ∷ "\n" ∷ "        # DNS\n"
    ∷ "        tcp dport 53 accept\n" ∷ "        udp dport 53 accept\n" ∷ "\n" ∷ "        # BGP\n"
    ∷ "        tcp dport 179 accept\n" ∷ "\n" ∷ "        # BFD\n"
    ∷ "        udp dport { 3784, 3785, 4784 } accept" ∷ [])

abbrev input_rule_lines : NftRule → String
input_rule_lines r = concat (
    "\n\n        # Custom input rule"
    ∷ (if r.comment == "" then "" else concat (" — " ∷ r.comment ∷ []))
    ∷ "\n        "
    ∷ r.rule
    ∷ [])

abbrev forward_chain : String
forward_chain = concat (
    "\n\n        # Log and drop\n" ∷ "        log prefix \"nft-input-drop: \" counter drop\n"
    ∷ "    }\n" ∷ "\n" ∷ "    chain forward {\n"
    ∷ "        type filter hook forward priority filter; policy drop;\n" ∷ "\n"
    ∷ "        # Established/related\n" ∷ "        ct state established,related accept" ∷ [])

abbrev forward_rule_lines : NftRule → String
forward_rule_lines r = concat ("\n\n        # " ∷ r.comment ∷ "\n        " ∷ r.rule ∷ [])

abbrev output_and_nat : String
output_and_nat = concat (
    "\n\n        # Log and drop\n" ∷ "        log prefix \"nft-forward-drop: \" counter drop\n"
    ∷ "    }\n" ∷ "\n" ∷ "    chain output {\n"
    ∷ "        type filter hook output priority filter; policy accept;\n" ∷ "    }\n" ∷ "}\n" ∷ "\n"
    ∷ "table inet nat {\n" ∷ "    chain postrouting {\n"
    ∷ "        type nat hook postrouting priority srcnat; policy accept;" ∷ [])

abbrev masquerade_lines : String → String
masquerade_lines device = concat (
    "\n\n        # Masquerade on " ∷ device ∷ "\n        oifname \"" ∷ device ∷ "\" masquerade"
    ∷ [])

-- nftConfTemplate
unfoldable pub nft_template : NftData → String
nft_template d = concat (
    input_chain
    ∷ concat_map input_rule_lines d.input_rules
    ∷ forward_chain
    ∷ concat_map forward_rule_lines d.forward_rules
    ∷ output_and_nat
    ∷ concat_map masquerade_lines d.masquerade_rules
    ∷ "\n    }\n}\n"
    ∷ [])

-- Render, which never fails: the template is fixed and has a field for each of its names.
unfoldable pub render : SiteConfig → String
unfolding nft_data nft_template
render cfg = nft_template (nft_data cfg)
