-- ===== src/Clients/Refused.antt =====
-- What the guest's driver makes of the commands that umalpage sends.
use maitland.Base.{
  ℕ, ◌<◌, ◌≡◌, refl, ◌==◌, if◌then◌else◌, some, [], ◌∷◌, length, pos, ok, Text, lt→ltb, arith,
}
use maitland.Wire.{ProcessReport}
use maitland.Malpage.Send.{badcmd, cmd_report, malpage_ioctl}
use maitland.Clients.{
  ClientEnv, ioctl, malpage_command, umalpage, umalpage_run, with_device, if_open,
}
use maitland.Malpage.Send.Sent.{malpage_ioctl-ignored}

malpage_command-bounds :
    (cmd : Text) (number : ℕ) → malpage_command cmd ≡ some number → (250 < number) × (number < 257)
unfolding malpage_command
malpage_command-bounds cmd number e = ground (arith, e)

-- If the command fits the copy and the device is opened, each word that umalpage knows but `listread`
-- makes it send one ioctl with the number in its first argument, and end with 0. The guest's driver
-- answers the ioctl of `message` with 0 and every other one with -10, and does nothing for any.
pub umalpage-refused :
    (env : ClientEnv) (name arg cmd : Text) (fd number : ℕ) (room : ℕ → ℕ) (rep : ProcessReport)
    (domid : ℕ)
    → length cmd < env.room
    → env.opened ≡ pos fd
    → malpage_command cmd ≡ some number
    → (umalpage env (name ∷ arg ∷ cmd ∷ []) ≡ ok (ioctl number (env.atoi arg) ∷ [], pos 0))
      × (malpage_ioctl room rep domid number (env.atoi arg)
          ≡ ok ([], if number == cmd_report then pos 0 else badcmd))
unfolding umalpage with_device if_open umalpage_run
umalpage-refused env name arg cmd fd number room rep domid fits opened chosen =
    let (low, high) = malpage_command-bounds cmd number chosen in
    (
      rw (lt→ltb (length cmd) env.room fits, opened, umalpage_run, chosen) refl,
      malpage_ioctl-ignored room rep domid number (env.atoi arg) (ground (arith, high))
          (ground (arith, high)),
    )
