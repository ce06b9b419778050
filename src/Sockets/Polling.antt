-- ===== src/Sockets/Polling.antt =====
-- Connected of CrossPlatform/SocketApi.cpp, from what the system's `poll` returns and what it stores in
-- `revents`.
use nuke.Base.{ℕ, Bool, true, false, ◌==◌, if◌then◌else◌, bit_and}
use nuke.Base.Int.{ℤ, negsuc, eqb_ℤ}

-- POLLOUT on Linux and on Windows.
abbrev pub poll_out_linux : ℕ
poll_out_linux = 0x4

abbrev pub poll_out_windows : ℕ
poll_out_windows = 0x10

unfoldable pub connected_linux : (poll_result : ℤ) (revents : ℕ) → Bool
connected_linux poll_result revents =
    if eqb_ℤ poll_result (negsuc 0)
    then false
    else if bit_and revents poll_out_linux == 0
    then false
    else true

-- The result of WSAPoll is not looked at.
unfoldable pub connected_windows : (poll_result : ℤ) (revents : ℕ) → Bool
connected_windows poll_result revents =
    if bit_and revents poll_out_windows == 0 then false else true
