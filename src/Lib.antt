-- ===== src/Lib.antt =====
-- Verification library of the Marstek BLE integration for Home Assistant.
--
-- The integration reads battery systems over Bluetooth. A command is framed and written to the
-- device; the device answers by notifications, which a protocol checks and parses into the data that
-- the entities show. Two protocols live side by side: MarstekProtocol, with a parser written by hand
-- for each command, and ProductProtocol, which parses by tables of packets and fields. A coordinator
-- polls the device on a schedule, and a device object keeps the connection, retries commands and
-- counts their results.
--
-- Files and code, below custom_components/marstek_ble/:
--   Prelude    shared names, Boolean tests, lists over the native numbers, integers
--   Result     Python exceptions as values
--   Struct     the formats of Python's struct module that the code uses, and slices
--   Converter  the values of fields and the converters of schema.py
--   Text       the methods of Python's str that the text parsers use, the decoding of bytes
--              (Text/Decoding) and numerals (Text/Numerals)
--   Frame      build_command and the checks of parse_notification of marstek_device.py and
--              product_runtime.py, which are alike
--   Schema     schema.py: packets and sources (Schema), dataclass instances as trees of slots,
--              iter_parsed_fields and parse_into (Schema/Tree), a single pass as the
--              specification (Schema/OnePass), tables of fields (Schema/Tables) and the
--              assignments of the text parsers (Schema/Attributes)
--   Marstek    marstek_device.py: MarstekData (Marstek), the parsers of numbers (Marstek/Numeric) and
--              of text (Marstek/Texts), parse_notification (Marstek/Notification)
--   ProductRuntime  product_runtime.py, with the part of ProductProfile in entity.py that it uses
--   Venus      products/venus.py, as the instance that holds the values of a MarstekData (venus_data),
--              and products/venus_runtime.py (Venus/Runtime)
--   Jupiter    products/jupiter.py: packets and converters (Jupiter), dataclasses with their packet
--              sources (Jupiter/Tables), and products/jupiter_runtime.py (Jupiter/Runtime)
--   Products   products/__init__.py: the registry of enabled products
--   Entity     entity.py: specifications, bindings and values by path (Entity), build_entity_plan
--              (Entity/Plan, with the bindings in Entity/Plan/Bindings), detect_expansion_increases
--              (Entity/Expansion), with the repeated sections of an instance as its specification
--              (Entity/Sections, Entity/Report), the places of entities in the data (Entity/Place)
--              and product_entity_platform.py (Entity/Manager)
--   ProductCoordinator  the notifications of product_coordinator.py: data, device and listeners
--   Polling    the intervals, the poll cycles and the backoff of coordinator.py and const.py, and
--              _poll_commands of product_coordinator.py
--   Device     MarstekBLEDevice of marstek_device.py: its records (Device), its connection and
--              commands (Device/Commands), the states that it reaches (Device/Reach) and the statistics
--              of a command (Device/Tally)
--   Tests, Runs, Receptions, Plans  uses of the theorems at concrete inputs
--
-- The code's words are kept: a function has the name of its Python function without a leading
-- underscore, and a handler is one function that returns the state it leaves. An exception is a
-- value, and what was written before it stays written. A timestamp is an argument, read once per
-- notification as the code does; floats are an integer over a divisor (Converter.real), so that no
-- rounding is modelled; intervals are whole seconds and clock readings milliseconds. A payload is a
-- list of numbers; IsBytes says that they are bytes where a theorem needs it. Loops are recursions on
-- lists, so that no fuel is needed except for numerals, where the number itself is enough. The
-- retries of send_command run through a script with one entry for each attempt: what the Bluetooth
-- library answers, and what arrives while the command waits.
--
-- Not modelled: logging, the entity descriptions that the product tables attach to their fields, the
-- legacy reads and derived values of the products, the Home Assistant entities, set up and forms, and
-- the diagnostics, which only format what is kept. Python's struct, str and datetime and the Bluetooth
-- library are no part of the repository: of struct and str the model has what the code uses, of
-- Bluetooth only its answers, and the text of a timestamp is a parameter.
pub mod Prelude
pub mod Result
pub mod Struct
pub mod Converter
pub mod Text
pub mod Frame
pub mod Schema
pub mod Marstek
pub mod ProductRuntime
pub mod Venus
pub mod Jupiter
pub mod Products
pub mod Entity
pub mod Polling
pub mod Device
pub mod ProductCoordinator
pub mod Tests
pub mod Runs
pub mod Receptions
pub mod Plans
