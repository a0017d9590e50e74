-- ===== src/Setup/Tests.antt =====
-- Runs of the set-up, and the theorems at them.
use linux_api_and_socket_pro.Common.{◌≡◌, true, false, none, some}
use linux_api_and_socket_pro.Setup.{Os, http_setup}
use linux_api_and_socket_pro.Setup.Listening.{
  ends, IsOpening, chat_server, setup, setup-IsOpening, http_setup_lem,
}

-- the address is in use
abbrev in_use : Os
in_use = record { socket = some 3; binds = false; listens = true }

setup-IsOpening_example : IsOpening 1130 none (setup chat_server in_use)
setup-IsOpening_example = setup-IsOpening chat_server in_use

-- all goes well, but for `listen`
abbrev deaf : Os
deaf = record { socket = some 3; binds = true; listens = false }

http_setup_test :
    ((http_setup 2 true deaf).1 ≡ some 3)
    × ((http_setup 2 true deaf).1 ≡ none → ends (http_setup 2 true deaf).0 ≡ true)
http_setup_test = http_setup_lem 2 true deaf
