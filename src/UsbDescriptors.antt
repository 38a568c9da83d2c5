-- ===== src/UsbDescriptors.antt =====
-- pico/src/usb_descriptors.c: the device descriptor and the string descriptors. The constants of TinyUSB and the
-- board's serial number are parameters.
pub mod Configuration
use pico_keyboard_rt_recorde.Base.{
  ℕ, zero, suc, ◌+◌, ◌*◌, ◌≤◌, ◌<◌, ◌≡◌, refl, ap, ◌∙◌, Bool, true, false, List, [], ◌∷◌, ltb, leb,
  ◌==◌, if◌then◌else◌, length, take, Array, update, update_ne, ap₂, u8, u16, arith, get_or,
}

abbrev pub usb_vid : ℕ
usb_vid = 0xCafe

abbrev pub usb_pid : ℕ
usb_pid = 0x4014

abbrev pub usb_bcd : ℕ
usb_bcd = 0x0200

-- `tusb_desc_device_t`
pub record DeviceDescriptor : Type 0 where
  pub length : ℕ
  pub descriptor_type : ℕ
  pub bcd_usb : ℕ
  pub device_class : ℕ
  pub device_sub_class : ℕ
  pub device_protocol : ℕ
  pub max_packet_size_0 : ℕ
  pub id_vendor : ℕ
  pub id_product : ℕ
  pub bcd_device : ℕ
  pub manufacturer : ℕ
  pub product : ℕ
  pub serial_number : ℕ
  pub num_configurations : ℕ

-- `size` is `sizeof(tusb_desc_device_t)`, `kind` is TUSB_DESC_DEVICE, `endpoint0` is CFG_TUD_ENDPOINT0_SIZE.
abbrev pub device_descriptor : ℕ → ℕ → ℕ → DeviceDescriptor
device_descriptor size kind endpoint0 = record {
  length = size;
  descriptor_type = kind;
  bcd_usb = usb_bcd;
  device_class = 0x00;
  device_sub_class = 0x00;
  device_protocol = 0x00;
  max_packet_size_0 = endpoint0;
  id_vendor = usb_vid;
  id_product = usb_pid;
  bcd_device = 0x0100;
  manufacturer = 0x01;
  product = 0x02;
  serial_number = 0x03;
  num_configurations = 0x01;
}

abbrev pub strid_langid : ℕ
strid_langid = 0

abbrev pub strid_serial : ℕ
strid_serial = 3

-- "Pico Keyboard RT Recorder"
abbrev pub manufacturer_string : List ℕ
manufacturer_string =
    80 ∷ 105 ∷ 99 ∷ 111 ∷ 32 ∷ 75 ∷ 101 ∷ 121 ∷ 98 ∷ 111 ∷ 97 ∷ 114 ∷ 100 ∷ 32 ∷ 82 ∷ 84 ∷ 32 ∷ 82
    ∷ 101 ∷ 99 ∷ 111 ∷ 114 ∷ 100 ∷ 101 ∷ 114 ∷ []

-- "Pico 2 Boot Keyboard"
abbrev pub product_string : List ℕ
product_string =
    80 ∷ 105 ∷ 99 ∷ 111 ∷ 32 ∷ 50 ∷ 32 ∷ 66 ∷ 111 ∷ 111 ∷ 116 ∷ 32 ∷ 75 ∷ 101 ∷ 121 ∷ 98 ∷ 111 ∷ 97
    ∷ 114 ∷ 100 ∷ []

-- `string_descriptors`, without the bytes of the language and with nothing for NULL.
abbrev pub string_descriptors : List (List ℕ)
string_descriptors = [] ∷ manufacturer_string ∷ product_string ∷ [] ∷ []

-- The copying loop from character number `i` on; the list is what is left of the string.
unfoldable pub copy_characters : ℕ → List ℕ → Array ℕ → Array ℕ
copy_characters i [] a = a
copy_characters i (c ∷ cs) a = copy_characters (i + 1) cs (update a (i + 1) (u8 c))

-- The last statements: the header in front of the characters. Its two bytes are written as a sum: they share no
-- bits as long as there are fewer than 127 characters.
unfoldable pub with_header : ℕ → ℕ → Array ℕ → Array ℕ
with_header kind character_count a = update a 0 (u16 (kind * 256 + (2 * character_count + 2)))

-- `kind` is TUSB_DESC_STRING, `get_serial` is `board_usb_get_serial` on the array behind its first entry. The
-- Boolean is false for the result NULL; the array is the static `string_descriptor`. The memory copy of the two
-- bytes 0x09, 0x04 is one little-endian entry.
unfoldable pub descriptor_string_cb : ℕ → (Array ℕ → ℕ × Array ℕ) → ℕ → Array ℕ → Bool × Array ℕ
unfolding copy_characters with_header
descriptor_string_cb kind get_serial index a =
    let (serial_count, serial) = get_serial a in
    let string = get_or string_descriptors index [] in
    let character_count = if ltb 32 (length string) then 32 else length string in
    if index == strid_langid
    then (true, with_header kind 1 (update a 1 0x0409))
    else if index == strid_serial
    then (true, with_header kind serial_count serial)
    else if leb 4 index
    then (false, a)
    else (
      true,
      with_header kind character_count (copy_characters 0 (take character_count string) a),
    )

-- The `n` entries from index `i` on.
abbrev pub characters : Array ℕ → ℕ → ℕ → List ℕ
characters a i zero = []
characters a i (suc n) = a i ∷ characters a (i + 1) n

-- A descriptor of the text `s`: its header counts two bytes for each character and two for itself.
pub record Describes (kind : ℕ) (s : List ℕ) (a : Array ℕ) : Type 0 where
  pub header : a 0 ≡ kind * 256 + (2 * length s + 2)
  pub text : characters a 1 (length s) ≡ s

length-characters : (a : Array ℕ) (i n : ℕ) → length (characters a i n) ≡ n
length-characters a i zero = refl
length-characters a i (suc n) = ap suc (length-characters a (i + 1) n)

-- The header stands in front of the characters.
characters-with_header :
    (kind c : ℕ) (a : Array ℕ) (i n : ℕ)
    → 0 < i
    → characters (with_header kind c a) i n ≡ characters a i n
unfolding with_header
characters-with_header kind c a i zero h = refl
characters-with_header kind c a i (suc n) h =
    ap₂ ◌∷◌ (update_ne a 0 i _ (λ e. absurd (omega (arith, e, h))))
      (characters-with_header kind c a (i + 1) n (omega arith))

with_header-Describes :
    (kind n : ℕ) (a : Array ℕ)
    → kind < 256
    → n ≤ 32
    → Describes kind (characters a 1 n) (with_header kind n a)
unfolding with_header
with_header-Describes kind n a hk hn =
    let size = length-characters a 1 n in
    record {
      header = omega (arith, size, hk, hn);
      text =
          ap (characters (with_header kind n a) 1) size
          ∙ characters-with_header kind n a 1 n (omega arith);
    }

-- What `tud_descriptor_string_cb` answers to index `index`.
pub data Answer (kind : ℕ) (serial : ℕ × Array ℕ) (a : Array ℕ) (index : ℕ) (r : Bool × Array ℕ)
    : Type 0 where
  no_string : 4 ≤ index → r.0 ≡ false → r.1 ≡ a → Answer kind serial a index r
  language :
      index ≡ 0 → r.0 ≡ true → Describes kind (0x0409 ∷ []) r.1 → Answer kind serial a index r
  maker :
      index ≡ 1 → r.0 ≡ true → Describes kind manufacturer_string r.1 → Answer kind serial a index r
  name : index ≡ 2 → r.0 ≡ true → Describes kind product_string r.1 → Answer kind serial a index r
  serial_number :
      index ≡ 3
      → r.0 ≡ true
      → Describes kind (characters serial.1 1 serial.0) r.1
      → Answer kind serial a index r

unknown_index :
    (kind : ℕ) (get_serial : Array ℕ → ℕ × Array ℕ) (index : ℕ) (a : Array ℕ)
    → 4 ≤ index
    → descriptor_string_cb kind get_serial index a ≡ (false, a)
unfolding descriptor_string_cb
unknown_index kind get_serial index a h =
    let first : (index == strid_langid) ≡ false = ground arith in
    let last : (index == strid_serial) ≡ false = ground arith in
    let past : leb 4 index ≡ true = ground arith in rw (first, last, past) refl

-- A string descriptor is answered for the indices 0 to 3 only, and for these it is the language, the
-- manufacturer, the product or the board's serial number, whole, behind a header with the right number of
-- bytes; for any other index the answer is NULL and nothing changes. The descriptor type is a byte, and the
-- board's serial number has at most 32 characters.
pub descriptor_string_cb_lem :
    (kind : ℕ) (get_serial : Array ℕ → ℕ × Array ℕ) (index : ℕ) (a : Array ℕ)
    → kind < 256
    → (get_serial a).0 ≤ 32
    → Answer kind (get_serial a) a index (descriptor_string_cb kind get_serial index a)
unfolding descriptor_string_cb
descriptor_string_cb_lem kind get_serial zero a hk hn =
    language refl refl (with_header-Describes kind 1 (update a 1 0x0409) hk (omega arith))
descriptor_string_cb_lem kind get_serial (suc zero) a hk hn =
    maker refl refl
      (with_header-Describes kind 25 (copy_characters 0 manufacturer_string a) hk (omega arith))
descriptor_string_cb_lem kind get_serial (suc (suc zero)) a hk hn =
    name refl refl
      (with_header-Describes kind 20 (copy_characters 0 product_string a) hk (omega arith))
descriptor_string_cb_lem kind get_serial (suc (suc (suc zero))) a hk hn =
    serial_number refl refl (with_header-Describes kind (get_serial a).0 (get_serial a).1 hk hn)
descriptor_string_cb_lem kind get_serial (suc (suc (suc (suc n)))) a hk hn =
    let e = unknown_index kind get_serial (suc (suc (suc (suc n)))) a (omega arith) in
    no_string (omega arith) (ap (λ (r : Bool × Array ℕ). r.0) e)
      (ap (λ (r : Bool × Array ℕ). r.1) e)
