-- ===== src/Common/Values.antt =====
-- JavaScript values of type `unknown`, as the parsers of wire formats read them.
use Prim.Native.String.{String}
use mathlib.Core.Bool.{Bool}
use cashu_fault_lab.Common.Tests.{if◌then◌else◌}
use cashu_fault_lab.Common.Text.{str_eq}
use cashu_fault_lab.Common.Numbers.{Number}

-- `exotic` stands for functions, symbols, class instances and the like.
mutual
  pub data Value : Type 0 where
    undefined null exotic : Value
    boolean : Bool → Value
    number : Number → Value
    string : String → Value
    array : Items → Value
    object : Fields → Value

  pub data Items : Type 0 where
    nil : Items
    cons : Value → Items → Items

  pub data Fields : Type 0 where
    end : Fields
    field : String → Value → Fields → Fields

-- value[key] of a plain object
unfoldable pub property : Fields → String → Value
property end key = undefined
property (field k v fs) key = if str_eq k key then v else property fs key
