-- ===== src/Ams/Constants.antt =====
-- ams/ams.go: command ids, state flags, states and index groups, and the test of a flag.
use goads.Base.{ℕ, Bool, bit_and, ◌==◌}
use goads.Ams.Header.{AmsHeader}

abbrev pub cmd_ads_read_device_info : ℕ
cmd_ads_read_device_info = 1

abbrev pub cmd_ads_read : ℕ
cmd_ads_read = 2

abbrev pub cmd_ads_write : ℕ
cmd_ads_write = 3

abbrev pub cmd_ads_read_state : ℕ
cmd_ads_read_state = 4

abbrev pub cmd_ads_add_device_notification : ℕ
cmd_ads_add_device_notification = 6

abbrev pub cmd_ads_delete_device_notification : ℕ
cmd_ads_delete_device_notification = 7

abbrev pub cmd_ads_device_notification : ℕ
cmd_ads_device_notification = 8

abbrev pub cmd_ads_read_write : ℕ
cmd_ads_read_write = 9

abbrev pub state_response : ℕ
state_response = 1

abbrev pub state_ads_command : ℕ
state_ads_command = 4

abbrev pub no_error : ℕ
no_error = 0

abbrev pub ads_state_start : ℕ
ads_state_start = 4

abbrev pub ads_state_run : ℕ
ads_state_run = 5

abbrev pub ads_state_stop : ℕ
ads_state_stop = 6

abbrev pub cmd_invalid : ℕ
cmd_invalid = 0

abbrev pub cmd_ads_write_control : ℕ
cmd_ads_write_control = 5

abbrev pub state_no_return : ℕ
state_no_return = 2

abbrev pub state_system_command : ℕ
state_system_command = 8

abbrev pub state_high_prio_command : ℕ
state_high_prio_command = 16

abbrev pub state_timestamp_added : ℕ
state_timestamp_added = 32

abbrev pub state_udp_command : ℕ
state_udp_command = 64

abbrev pub state_init_command : ℕ
state_init_command = 128

abbrev pub state_broadcast : ℕ
state_broadcast = 32768

abbrev pub target_machine_not_found : ℕ
target_machine_not_found = 7

abbrev pub idx_get_sym_handle_by_name : ℕ
idx_get_sym_handle_by_name = 0xF003

abbrev pub idx_reserved : ℕ
idx_reserved = 0xF004

abbrev pub idx_read_write_sym_value_by_handle : ℕ
idx_read_write_sym_value_by_handle = 0xF005

abbrev pub idx_release_sym_handle : ℕ
idx_release_sym_handle = 0xF006

abbrev pub idx_read_i_write_i : ℕ
idx_read_i_write_i = 0xF020

abbrev pub idx_read_ix_write_ix : ℕ
idx_read_ix_write_ix = 0xF021

abbrev pub idx_adsigrp_ioimage_risize : ℕ
idx_adsigrp_ioimage_risize = 0xF025

abbrev pub idx_read_q_write_q : ℕ
idx_read_q_write_q = 0xF030

abbrev pub idx_read_qx_write_qx : ℕ
idx_read_qx_write_qx = 0xF031

abbrev pub idx_adsigrp_ioimage_rosize : ℕ
idx_adsigrp_ioimage_rosize = 0xF035

abbrev pub idx_adsigrp_sumup_read : ℕ
idx_adsigrp_sumup_read = 0xF080

abbrev pub idx_adsigrp_sumup_write : ℕ
idx_adsigrp_sumup_write = 0xF081

abbrev pub idx_adsigrp_sumup_readwrite : ℕ
idx_adsigrp_sumup_readwrite = 0xF082

abbrev pub port_ams_router : ℕ
port_ams_router = 1

abbrev pub port_tc3_plc_runtime_system1 : ℕ
port_tc3_plc_runtime_system1 = 851

abbrev pub ads_state_invalid : ℕ
ads_state_invalid = 0

abbrev pub ads_state_idle : ℕ
ads_state_idle = 1

abbrev pub ads_state_reset : ℕ
ads_state_reset = 2

abbrev pub ads_state_init : ℕ
ads_state_init = 3

abbrev pub ads_state_save_config : ℕ
ads_state_save_config = 7

abbrev pub ads_state_load_config : ℕ
ads_state_load_config = 8

abbrev pub ads_state_power_failure : ℕ
ads_state_power_failure = 9

abbrev pub ads_state_power_good : ℕ
ads_state_power_good = 10

abbrev pub ads_state_error : ℕ
ads_state_error = 11

abbrev pub ads_state_shutdown : ℕ
ads_state_shutdown = 12

abbrev pub ads_state_suspend : ℕ
ads_state_suspend = 13

abbrev pub ads_state_resume : ℕ
ads_state_resume = 14

abbrev pub ads_state_config : ℕ
ads_state_config = 15

abbrev pub ads_state_reconfig : ℕ
ads_state_reconfig = 16

-- The length of an encoded AMS header.
abbrev pub ams_header_len : ℕ
ams_header_len = 32

-- `HasState`: all bits of `flag` are set.
abbrev pub has_state : AmsHeader → ℕ → Bool
has_state h flag = bit_and h.state_flags flag == flag
