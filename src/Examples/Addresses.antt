-- ===== src/Examples/Addresses.antt =====
-- The properties of addresses at concrete ones.
use lorawan.Prelude.{[], ◌∷◌, ◌≡◌, some, true, ◌↔◌, arith}
use lorawan.DevAddr.{is_net_id, net_id_type, set_addr_prefix, net_id_type_of, nwk_id}
use lorawan.Ident.{NetId}
use lorawan.Prelude.Bytes.{uint32_be}
use lorawan.Examples.{test_addr, test_addr-IsArray}
use lorawan.DevAddr.Read.{nwk_id_bytes, is_net_id_iff, set_addr_prefix_reads}
use lorawan.DevAddr.Prefix.{prefixed, id_value}

abbrev test_net_id : NetId
test_net_id = 0x60 ∷ 0x00 ∷ 0x2a ∷ []

is_net_id_iff_example : (is_net_id test_addr test_net_id ≡ true) ↔ (
    uint32_be test_addr
    ≡ prefixed (net_id_type_of test_net_id) (id_value test_net_id) (uint32_be test_addr))
is_net_id_iff_example = is_net_id_iff test_addr test_net_id test_addr-IsArray (ground arith)

set_addr_prefix_reads_example :
    (net_id_type (set_addr_prefix test_addr test_net_id) ≡ some (net_id_type_of test_net_id))
    × (nwk_id (set_addr_prefix test_addr test_net_id)
        ≡ some (nwk_id_bytes (net_id_type_of test_net_id) (id_value test_net_id)))
    × (is_net_id (set_addr_prefix test_addr test_net_id) test_net_id ≡ true)
set_addr_prefix_reads_example =
    set_addr_prefix_reads test_addr test_net_id test_addr-IsArray (ground arith)
