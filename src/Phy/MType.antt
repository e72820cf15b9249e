-- ===== src/Phy/MType.antt =====
-- The message types of phypayload.go.
use lorawan.Prelude.{ℕ}

abbrev pub join_request : ℕ
join_request = 0

abbrev pub join_accept : ℕ
join_accept = 1

abbrev pub unconfirmed_data_up : ℕ
unconfirmed_data_up = 2

abbrev pub unconfirmed_data_down : ℕ
unconfirmed_data_down = 3

abbrev pub confirmed_data_up : ℕ
confirmed_data_up = 4

abbrev pub confirmed_data_down : ℕ
confirmed_data_down = 5

abbrev pub rejoin_request : ℕ
rejoin_request = 6

abbrev pub proprietary : ℕ
proprietary = 7
