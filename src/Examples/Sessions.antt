-- ===== src/Examples/Sessions.antt =====
-- The theorems on the remote shutdown and the trusted proxies, at a host with a password file.
use wol_secure_light_switch.Prelude.{
  ◌≡◌, refl, true, false, none, some, List, [], ◌∷◌, Text, codes, text_dec, All, trim_left,
  trim_right, trim_space,
}
use wol_secure_light_switch.Prelude.Map.{lookup, put}
use wol_secure_light_switch.Config.{Host, split_on, extend_first}
use wol_secure_light_switch.Ssh.{
  write, write_all, Remote, ran, remote_shutdown, remote_shutdown_at, credentials, command_of,
  known_hosts_path, conclude,
}
use wol_secure_light_switch.Ssh.Success.{IsSuccess, remote_shutdown-IsSuccess}
use wol_secure_light_switch.Proxies.{
  NetIp, has_slash, canonical, parse_proxies, parse_trusted_proxies,
}
use wol_secure_light_switch.Proxies.Canonical.{
  AllDifferent, IsProxy, parse_trusted_proxies-AllDifferent,
}
use wol_secure_light_switch.Examples.Documents.{nas}

abbrev host : Host
host = record nas { password_file = codes "/run/secrets/nas" }

abbrev remote : Remote
remote = record {
  read_file = λ path. some (codes "a password\n");
  parses_as_key = λ key. false;
  known_hosts_file = [];
  is_known_hosts = λ path. true;
  connect = λ user credential known_hosts address command. ran false (10 ∷ 20 ∷ []) false;
}

shut_down_well : remote_shutdown remote host ≡ none
unfolding remote_shutdown remote_shutdown_at credentials command_of known_hosts_path conclude
    write_all write text_dec trim_left trim_right
shut_down_well = refl

remote_shutdown-IsSuccess_example : IsSuccess remote host
remote_shutdown-IsSuccess_example = remote_shutdown-IsSuccess remote host shut_down_well

abbrev net_ip : NetIp
net_ip = record { parse_prefix = λ s. some (8, s); parse_addr = λ s. some ([], s) }

abbrev one_proxy : List Text
one_proxy = codes "10.0.0.1" ∷ []

two_parsed : parse_trusted_proxies net_ip (codes "10.0.0.1, 10.0.0.1") ≡ some one_proxy
unfolding parse_trusted_proxies parse_proxies canonical has_slash split_on extend_first trim_space
    trim_left trim_right text_dec lookup put
two_parsed = refl

parse_trusted_proxies-AllDifferent_example : All (IsProxy net_ip) one_proxy × AllDifferent one_proxy
parse_trusted_proxies-AllDifferent_example =
    parse_trusted_proxies-AllDifferent net_ip (codes "10.0.0.1, 10.0.0.1") {proxies = one_proxy}
      two_parsed
