-- ===== src/Ssh/Output.antt =====
-- backend/internal/sshrunner/ssh.go: what the output counter tells.
use wol_secure_light_switch.Prelude.{ℕ, ◌+◌, ◌≤◌, ◌≡◌, ◌∙◌, ◌||◌, arith, List, [], ◌∷◌, ltb}
use wol_secure_light_switch.Ssh.{ssh_output_limit, SshOutputCounter, new_counter, write, write_all}

-- The bytes of all writes.
abbrev pub total : List ℕ → ℕ
total [] = 0
total (n ∷ ns) = n + total ns

write-exceeded :
    (o : SshOutputCounter) (n t : ℕ)
    → o.bytes ≤ ssh_output_limit
    → ((write o n).bytes ≤ ssh_output_limit)
      × (((write o n).exceeded || ltb ssh_output_limit ((write o n).bytes + t))
          ≡ (o.exceeded || ltb ssh_output_limit (o.bytes + (n + t))))
unfolding write
write-exceeded o n t h = (ground arith, ground arith)

write_all-exceeded_from :
    (ns : List ℕ) (o : SshOutputCounter)
    → o.bytes ≤ ssh_output_limit
    → ((write_all o ns).exceeded ≡ (o.exceeded || ltb ssh_output_limit (o.bytes + total ns)))
      × ((write_all o ns).bytes ≤ ssh_output_limit)
unfolding write_all
write_all-exceeded_from [] o h = (ground arith, h)
write_all-exceeded_from (n ∷ ns) o h =
    let (bounded, carried) = write-exceeded o n (total ns) h in
    let (told, within) = write_all-exceeded_from ns (write o n) bounded in (told ∙ carried, within)

-- After any writes the counter tells that the limit is exceeded exactly when their total is over
-- 64 KiB, and it counts no more than the limit.
pub write_all-exceeded :
    (ns : List ℕ)
    → ((write_all new_counter ns).exceeded ≡ ltb ssh_output_limit (total ns))
      × ((write_all new_counter ns).bytes ≤ ssh_output_limit)
write_all-exceeded ns =
    let (told, within) = write_all-exceeded_from ns new_counter (omega arith) in
    (ground (arith, told), within)
