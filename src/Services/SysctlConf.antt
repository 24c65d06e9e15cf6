-- ===== src/Services/SysctlConf.antt =====
-- internal/services/sysctl/sysctl.go: Render.
use warp_router.Prelude.{
  ℤ, pos, ltb_ℤ, String, Option, none, some, [], ◌∷◌, concat, show_int, if◌then◌else◌,
}
use warp_router.Config.{Sysctl, SiteConfig}

-- The connection limit: the configured one if it is positive.
unfoldable pub conntrack_max : Option Sysctl → ℤ
conntrack_max none = pos 262144
conntrack_max (some s) = if ltb_ℤ (pos 0) s.conntrack_max then s.conntrack_max else pos 262144

-- sysctlConfTemplate
unfoldable pub sysctl_template : ℤ → String
unfolding show_int
sysctl_template limit = concat (
    "# Warp Router — sysctl settings\n"
    ∷ "# Generated by 'warp apply'. Do not edit manually.\n"
    ∷ "\n"
    ∷ "# Enable IPv4 forwarding\n"
    ∷ "net.ipv4.ip_forward = 1\n"
    ∷ "\n"
    ∷ "# Reverse path filtering (loose mode for multi-WAN ECMP)\n"
    ∷ "net.ipv4.conf.default.rp_filter = 2\n"
    ∷ "net.ipv4.conf.all.rp_filter = 2\n"
    ∷ "\n"
    ∷ "# Conntrack tuning\n"
    ∷ "net.netfilter.nf_conntrack_max = "
    ∷ show_int limit
    ∷ "\n"
    ∷ "\n"
    ∷ "# TCP SYN flood protection\n"
    ∷ "net.ipv4.tcp_syncookies = 1\n"
    ∷ "\n"
    ∷ "# Disable ICMP redirects\n"
    ∷ "net.ipv4.conf.all.accept_redirects = 0\n"
    ∷ "net.ipv4.conf.default.accept_redirects = 0\n"
    ∷ "net.ipv4.conf.all.send_redirects = 0\n"
    ∷ "net.ipv4.conf.default.send_redirects = 0\n"
    ∷ "\n"
    ∷ "# Ignore ICMP broadcast pings\n"
    ∷ "net.ipv4.icmp_echo_ignore_broadcasts = 1\n"
    ∷ "\n"
    ∷ "# Log martian packets\n"
    ∷ "net.ipv4.conf.all.log_martians = 1\n"
    ∷ "net.ipv4.conf.default.log_martians = 1\n"
    ∷ [])

-- Render
unfoldable pub render : SiteConfig → String
unfolding conntrack_max sysctl_template
render cfg = sysctl_template (conntrack_max cfg.sysctl)
