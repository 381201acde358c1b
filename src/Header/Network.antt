-- ===== src/Header/Network.antt =====
-- crates/hns-header-consensus/src/lib.rs: networks and their parameters.
use hns_rs.Base.{ℕ, ◌+◌, ◌-◌, ◌*◌, Bool, true, false, ◌&&◌, [], ◌∷◌, leb, if◌then◌else◌, String}
use hns_rs.Base.Bytes.{Bytes, zeros, codes}
use hns_rs.Header.Codec.{Header}

-- A character that is no hexadecimal digit panics at compile time; the constants have none.
unfoldable pub hex_nibble : ℕ → ℕ
hex_nibble c =
    if leb b'0' c && leb c b'9'
    then c - b'0'
    else if leb b'a' c && leb c b'f'
    then c - b'a' + 10
    else c - b'A' + 10

unfoldable pub hex_pairs : Bytes → Bytes
hex_pairs (hi ∷ lo ∷ rest) = (hex_nibble hi * 16 + hex_nibble lo) ∷ hex_pairs rest
hex_pairs rest = []

unfoldable pub hex32 : String → Bytes
hex32 value = hex_pairs (codes value)

pub data Network : Type 0 where
  mainnet testnet regtest simnet : Network

unfoldable pub id : Network → ℕ
id mainnet = 0
id testnet = 1
id regtest = 2
id simnet = 3

pub record PowParameters : Type 0 where
  pub limit : Bytes
  pub bits : ℕ
  pub target_window : ℕ
  pub target_spacing : ℕ
  pub target_timespan : ℕ
  pub minimum_actual_timespan : ℕ
  pub maximum_actual_timespan : ℕ
  pub target_reset : Bool
  pub no_retargeting : Bool

pub record NetworkParameters : Type 0 where
  pub network : Network
  pub packet_magic : ℕ
  pub port : ℕ
  pub brontide_port : ℕ
  pub pow : PowParameters
  pub genesis_hash : Bytes
  pub genesis_time : ℕ

unfoldable pub parameters : Network → NetworkParameters
parameters mainnet = record {
  network = mainnet;
  packet_magic = 0x5b6e_f2d3;
  port = 12_038;
  brontide_port = 44_806;
  pow = record {
    limit = hex32 "0000000000ffff00000000000000000000000000000000000000000000000000";
    bits = 0x1c00_ffff;
    target_window = 144;
    target_spacing = 600;
    target_timespan = 86_400;
    minimum_actual_timespan = 21_600;
    maximum_actual_timespan = 345_600;
    target_reset = false;
    no_retargeting = false;
  };
  genesis_hash = hex32 "5b6ef2d3c1f3cdcadfd9a030ba1811efdd17740f14e166489760741d075992e0";
  genesis_time = 1_580_745_078;
}
parameters testnet = record {
  network = testnet;
  packet_magic = 0xb152_0dd2;
  port = 13_038;
  brontide_port = 45_806;
  pow = record {
    limit = hex32 "00000000ffff0000000000000000000000000000000000000000000000000000";
    bits = 0x1d00_ffff;
    target_window = 144;
    target_spacing = 600;
    target_timespan = 86_400;
    minimum_actual_timespan = 21_600;
    maximum_actual_timespan = 345_600;
    target_reset = true;
    no_retargeting = false;
  };
  genesis_hash = hex32 "b1520dd24372f82ec94ebf8cf9d9b037d419c4aa3575d05dec70aedd1b427901";
  genesis_time = 1_580_745_079;
}
parameters regtest = record {
  network = regtest;
  packet_magic = 0xae38_95cf;
  port = 14_038;
  brontide_port = 46_806;
  pow = record {
    limit = hex32 "7fffff0000000000000000000000000000000000000000000000000000000000";
    bits = 0x207f_ffff;
    target_window = 144;
    target_spacing = 600;
    target_timespan = 86_400;
    minimum_actual_timespan = 21_600;
    maximum_actual_timespan = 345_600;
    target_reset = true;
    no_retargeting = true;
  };
  genesis_hash = hex32 "ae3895cf597eff05b19e02a70ceeeecb9dc72dbfe6504a50e9343a72f06a87c5";
  genesis_time = 1_580_745_080;
}
parameters simnet = record {
  network = simnet;
  packet_magic = 0x0e64_8edc;
  port = 15_038;
  brontide_port = 47_806;
  pow = record {
    limit = hex32 "7fffff0000000000000000000000000000000000000000000000000000000000";
    bits = 0x207f_ffff;
    target_window = 144;
    target_spacing = 600;
    target_timespan = 86_400;
    minimum_actual_timespan = 21_600;
    maximum_actual_timespan = 345_600;
    target_reset = false;
    no_retargeting = false;
  };
  genesis_hash = hex32 "0e648edc9cddb179014658061ea3f666a45cf44881877ae506e6babefbef6992";
  genesis_time = 1_580_745_081;
}

unfoldable pub genesis_header : NetworkParameters → Header
genesis_header p = record {
  nonce = 0;
  time = p.genesis_time;
  previous_block = zeros 32;
  tree_root = zeros 32;
  extra_nonce = zeros 24;
  reserved_root = zeros 32;
  witness_root = hex32 "1a2c60b9439206938f8d7823782abdb8b211a57431e9c9b6a6365d8d42893351";
  merkle_root = hex32 "8e4c9756fef2ad10375f360e0560fcc7587eb5223ddf8cd7c7e06e60a1140b15";
  version = 0;
  bits = p.pow.bits;
  mask = zeros 32;
}
